-- ===== src/Outbox/Drained.antt =====
-- That the outbox is emptied: src/shared/modules/outbox/providers/outbox-cron.processor.ts.
use mathlib.Core.List.{append-nil}
use dispatch_api.Prelude.{
  ℕ, zero, suc, ◌+◌, ◌*◌, length-append, ◌≤◌, ◌≡◌, refl, sym, ap, ◌∙◌, true, false, some, List, [],
  ◌∷◌, length, arith,
}
use dispatch_api.Entities.{Db, Outbox, QueueJob}
use dispatch_api.World.{World, Env, QueueName, orders, payments, effects, users, ok, view}
use dispatch_api.Guard.{transaction, opened}
use dispatch_api.Outbox.Add.{schedule}
use dispatch_api.Outbox.Dispatcher.{partition}
use dispatch_api.Outbox.Cron.{
  batch_limit, find_and_lock_batch, add_bulk, dispatch, process_batch, process_work, process,
  enqueue,
}
use dispatch_api.Outbox.Cycle.{batch, delivered, Delivered}
use dispatch_api.Outbox.Counted.{after_batch, batch_shrinks, length-partition, batch_at_most}

-- With queues that take every bulk, all parts of a batch are delivered.
abbrev AcceptsAll : Env → Type 0
AcceptsAll env = (name : QueueName) (jobs : List QueueJob) → env.accepts name jobs ≡ true

add_bulk_accepts :
    (name : QueueName) (jobs : List QueueJob) (w : World)
    → AcceptsAll w.env
    → add_bulk name jobs w ≡ (ok tt, enqueue name jobs w)
unfolding add_bulk
add_bulk_accepts orders [] w all = simp append-nil
add_bulk_accepts payments [] w all = simp append-nil
add_bulk_accepts effects [] w all = simp append-nil
add_bulk_accepts users [] w all = simp append-nil
add_bulk_accepts name (j ∷ js) w all = rw (all name (j ∷ js)) refl

enqueue-env :
    (name : QueueName) (jobs : List QueueJob) (w : World) → (enqueue name jobs w).env ≡ w.env
enqueue-env orders jobs w = refl
enqueue-env payments jobs w = refl
enqueue-env effects jobs w = refl
enqueue-env users jobs w = refl

dispatch_accepts :
    (ms : List Outbox) (w : World) → AcceptsAll w.env → dispatch ms w ≡ (ok tt, delivered ms w)
unfolding dispatch
dispatch_accepts ms w all =
    let plan = partition ms in
    let w1 = enqueue orders plan.order_queue_msg w in
    let w2 = enqueue payments plan.payment_queue_msg w1 in
    let w3 = enqueue effects plan.effect_queue_msg w2 in
    ground (
      arith,
      add_bulk_accepts orders plan.order_queue_msg w all,
      add_bulk_accepts payments plan.payment_queue_msg w1 all,
      add_bulk_accepts effects plan.effect_queue_msg w2 all,
      add_bulk_accepts users plan.user_queue_msg w3 all,
    )

-- A state in which a cycle may run and every queue accepts.
record Ready (w : World) : Type 0 where
  pub running : w.is_shutting_down ≡ false
  pub idle : w.is_processing ≡ false
  pub accepting : AcceptsAll w.env

keep_all : (rows : List Outbox) → after_batch [] rows ≡ rows
keep_all [] = refl
keep_all (m ∷ rows) = ap (λ ms. m ∷ ms) (keep_all rows)

-- What the work of a batch leaves.
record Taken (ms : List Outbox) (w w' : World) : Type 0 where
  pub rows : (view w').outbox ≡ after_batch ms (view w).outbox
  pub same_env : w'.env ≡ w.env
  pub same_shutdown : w'.is_shutting_down ≡ w.is_shutting_down
  pub jobs : Delivered ms w w'

none_sent : (w : World) → Delivered [] w w
unfolding partition
none_sent w = record {
  order_jobs = sym (append-nil w.order_queue);
  payment_jobs = sym (append-nil w.payment_queue);
  effect_jobs = sym (append-nil w.effect_queue);
  user_jobs = sym (append-nil w.user_queue);
}

process_batch_accepts :
    (ms : List Outbox) (w : World) (outer : Db → Db)
    → w.tx ≡ some outer
    → AcceptsAll w.env
    → let (r, w') = process_batch ms w in (r ≡ ok tt) × Taken ms w w'
unfolding process_batch schedule
process_batch_accepts [] w outer begun all = (
  refl,
  record {
    rows = sym (keep_all (view w).outbox);
    same_env = refl;
    same_shutdown = refl;
    jobs = none_sent w;
  },
)
process_batch_accepts (m ∷ ms) w outer begun all =
    let sent = dispatch_accepts (m ∷ ms) w all in
    (
      ground (arith, sent),
      record {
        rows = ground (arith, sent);
        same_env = ground (arith, sent);
        same_shutdown = ground (arith, sent);
        jobs = record {
          order_jobs = ground (arith, sent);
          payment_jobs = ground (arith, sent);
          effect_jobs = ground (arith, sent);
          user_jobs = ground (arith, sent);
        };
      },
    )

process_accepts :
    (w : World)
    → Ready w
    → let w' = (process w).1 in
      Ready w'
      × (w'.committed.outbox ≡ after_batch (batch w) w.committed.outbox)
      × Delivered (batch w) w w'
unfolding process process_work transaction find_and_lock_batch batch
process_accepts w r =
    let v = record (opened w) { is_processing = true } in
    let (done, t) = process_batch_accepts (batch w) v (λ db. db) refl r.accepting in
    let env_same : (process w).1.env ≡ w.env =
      ground (arith, r.running, r.idle, done, t.same_env) in
    (
      record {
        running = ground (arith, r.running, r.idle, done, t.same_shutdown);
        idle = ground (arith, r.running, r.idle, done);
        accepting = λ name jobs. ap (λ env. env.accepts name jobs) env_same ∙ r.accepting name jobs;
      },
      ground (arith, r.running, r.idle, done, t.rows),
      record {
        order_jobs = ground (arith, r.running, r.idle, done, t.jobs.order_jobs);
        payment_jobs = ground (arith, r.running, r.idle, done, t.jobs.payment_jobs);
        effect_jobs = ground (arith, r.running, r.idle, done, t.jobs.effect_jobs);
        user_jobs = ground (arith, r.running, r.idle, done, t.jobs.user_jobs);
      },
    )

-- How many jobs the queues have.
abbrev pub jobs_in : World → ℕ
jobs_in w =
    length w.order_queue + length w.payment_queue + length w.effect_queue + length w.user_queue

delivers_at_most : (w w' : World) → Delivered (batch w) w w' → jobs_in w' ≤ jobs_in w + batch_limit
unfolding batch
delivers_at_most w w' d =
    let plan = partition (batch w) in
    omega (
      arith,
      ap length d.order_jobs,
      ap length d.payment_jobs,
      ap length d.effect_jobs,
      ap length d.user_jobs,
      length-append w.order_queue plan.order_queue_msg,
      length-append w.payment_queue plan.payment_queue_msg,
      length-append w.effect_queue plan.effect_queue_msg,
      length-append w.user_queue plan.user_queue_msg,
      length-partition (batch w),
      batch_at_most batch_limit w.committed.outbox,
    )

-- Cycles one after the other, as the interval and `setImmediate` run them.
unfoldable pub cycles : ℕ → World → World
cycles zero w = w
cycles (suc n) w = cycles n (process w).1

length_zero : (ms : List Outbox) → length ms ≤ 0 → ms ≡ []
length_zero [] none_left = refl
length_zero (m ∷ ms) none_left = absurd (omega (arith, none_left))

drained :
    (n : ℕ) (w : World)
    → Ready w
    → length w.committed.outbox ≤ batch_limit * n
    → (cycles n w).committed.outbox ≡ []
unfolding cycles batch
drained zero w r few = length_zero w.committed.outbox (omega (arith, few))
drained (suc n) w r few =
    let (r', rows, _) = process_accepts w r in
    let less = batch_shrinks batch_limit w.committed.outbox in
    drained n (process w).1 r' (omega (arith, ap length rows, less, few))

-- While the queues take every bulk of jobs, no cycle runs and the process is not shutting down, the outbox is
-- emptied: one cycle hands over 100 jobs at most, and as many cycles as rows are counted in hundreds are
-- enough, if none is added meanwhile.
pub cycles_empty :
    (n : ℕ) (w : World)
    → w.is_shutting_down ≡ false
    → w.is_processing ≡ false
    → ((name : QueueName) (jobs : List QueueJob) → w.env.accepts name jobs ≡ true)
    → length w.committed.outbox ≤ 100 * n
    → ((cycles n w).committed.outbox ≡ []) × (jobs_in (process w).1 ≤ jobs_in w + 100)
cycles_empty n w running idle accepting few =
    let r : Ready w = record { running = running; idle = idle; accepting = accepting } in
    let (_, _, sent) = process_accepts w r in
    (drained n w r few, delivers_at_most w (process w).1 sent)
