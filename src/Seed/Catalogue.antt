-- ===== src/Seed/Catalogue.antt =====
-- Seeding the items again (seedMockItems in src/shared/providers/services/seed-data.service.ts).
use dispatch_api.Prelude.{
  ℕ, ◌≡◌, refl, ap, true, false, ◌&&◌, ◌==◌, ==_refl, List, [], ◌∷◌, ◌++◌, exists-append, arith,
  inl, inr,
}
use dispatch_api.Entities.{Item, Db, is_live}
use dispatch_api.World.{World, ok, view, view-write, for_each, is_ok, write_world, Result-cases}
use dispatch_api.Seed.{
  MockItem, mock_items, item_exists, item_of, insert_item, seed_mock_item, seed_mock_items,
}

-- Every item that the list names is there, and not removed.
abbrev pub AllThere : List MockItem → Db → Type 0
AllThere [] db = Unit
AllThere (m ∷ ms) db = (item_exists m.id db ≡ true) × AllThere ms db

module _ (m : MockItem) (w : World) where
  abbrev push_item : Db → Db
  push_item db = record db { items = db.items ++ (item_of w.now m ∷ []) }

  pushed :
      (id : ℕ)
      → item_exists id (view (write_world push_item w))
        ≡ elim (m.id == id) [ true ↦ true | false ↦ item_exists id (view w) ]
  pushed id = ground (
    arith,
    view-write push_item w,
    exists-append (λ (i : Item). is_live i.deleted_at && i.id == id) (view w).items
        (item_of w.now m),
  )

  seed_item_there :
      is_ok (seed_mock_item m w).0 ≡ true → item_exists m.id (view (seed_mock_item m w).1) ≡ true
  unfolding seed_mock_item insert_item
  seed_item_there returned = ground (arith, pushed m.id, ==_refl m.id)

  -- What is there stays there.
  seed_item_keeps :
      (id : ℕ)
      → item_exists id (view w) ≡ true
      → item_exists id (view (seed_mock_item m w).1) ≡ true
  unfolding seed_mock_item insert_item
  seed_item_keeps id there = ground (arith, pushed id)

loop_keeps :
    (ms : List MockItem) (w : World) (id : ℕ)
    → item_exists id (view w) ≡ true
    → item_exists id (view (for_each seed_mock_item ms w).1) ≡ true
loop_keeps [] w id there = there
loop_keeps (m ∷ ms) w id there =
    let kept = seed_item_keeps m w id there in
    elim (Result-cases (seed_mock_item m w).0) [
      | inl (_, returned) ↦ rw returned (loop_keeps ms (seed_mock_item m w).1 id kept)
      | inr (e, thrown) ↦ rw thrown kept
    ]

loop-AllThere :
    (ms : List MockItem) (w : World)
    → let (r, w') = for_each seed_mock_item ms w in is_ok r ≡ true → AllThere ms (view w')
loop-AllThere [] w h = tt
loop-AllThere (m ∷ ms) w h = elim (Result-cases (seed_mock_item m w).0) [
  | inl (_, returned) ↦
      let w1 = (seed_mock_item m w).1 in
      let rest : is_ok (for_each seed_mock_item ms w1).0 ≡ true = ground (arith, returned) in
      rw returned
        (loop_keeps ms w1 m.id (seed_item_there m w (ap is_ok returned)), loop-AllThere ms w1 rest)
  | inr (e, thrown) ↦ absurd (ground (arith, thrown))
]

loop_skips :
    (ms : List MockItem) (w : World)
    → AllThere ms (view w)
    → for_each seed_mock_item ms w ≡ (ok tt, w)
unfolding seed_mock_item
loop_skips [] w h = refl
loop_skips (m ∷ ms) w h = ground (arith, h.0, loop_skips ms w h.1)

-- Seeding the items, if it returns, leaves all of them there, and seeding them again changes nothing.
pub seed_items_again :
    (w : World)
    → let (r, w') = seed_mock_items w in
      is_ok r ≡ true → AllThere mock_items (view w') × (seed_mock_items w' ≡ (ok tt, w'))
unfolding seed_mock_items
seed_items_again w returned =
    let there = loop-AllThere mock_items w returned in
    (there, loop_skips mock_items (for_each seed_mock_item mock_items w).1 there)
