-- ===== src/Tests/Data.antt =====
-- A small shop: the state that the runs begin in.
use text.Mathlib.Text.{◌==◌ as text_eq}
use dispatch_api.Prelude.{ℕ, ◌+◌, true, false, none, some, [], ◌∷◌, length}
use dispatch_api.Prelude.Int.{pos}
use dispatch_api.Enums.{
  OrderStatus, pending, paid, processed, superadmin, user, order_process, push, order_paid,
}
use dispatch_api.Entities.{
  Order, OrderItem, Item, User, Payment, Notification, Outbox, Db, JobPayload, QueueJob,
  process_order, no_data,
}
use dispatch_api.Tests.Codec.{encode, decode}
use dispatch_api.World.{Env, StripeReads, World, order_update}

abbrev reads : StripeReads
reads = record {
  retrieve_payment_intent = λ id. none;
  retrieve_refund = λ id. none;
  retrieve_customer = λ id. none;
  list_customers = λ limit after. none;
  construct_event = λ payload signature. none;
}

abbrev pub env : Env
env = record {
  create_payment_intent =
      λ log p. some (record { id = 900 + length log; status = "open"; client_secret = some 1 });
  create_stripe_refund =
      λ log p. some (record { id = 950; payment_intent = p.payment_intent; amount = p.amount });
  create_stripe_customer = λ log p. some 960;
  update_stripe_customer = λ log id p. some id;
  del_stripe_customer = λ log id. some id;
  stripe_reads = reads;
  intl_format = λ n locale currency. currency;
  translate = λ key language args. language;
  ilike = λ s pattern. text_eq s pattern;
  stringify = λ q. 0;
  cache_ttl = none;
  encode_cursor = encode;
  decode_cursor = decode;
  text_code = λ s. 0;
  hash = λ salt s. s;
  compare = λ h s. text_eq h s;
  sign_access = λ now p. "access";
  sign_refresh = λ now p. "refresh";
  accepts = λ name jobs. true;
}

-- A gateway that is down.
abbrev pub env_down : Env
env_down = record env {
  create_payment_intent = λ log p. none;
  create_stripe_refund = λ log p. none;
}

abbrev pub order : ℕ → OrderStatus → Order
order id status = record {
  id = id;
  created_at = 100 + id;
  deleted_at = none;
  user_id = 7;
  status = status;
  total = 200;
  payment_id = some 50;
  tracking_number = none;
  carrier = none;
  shipped_at = none;
  delivered_at = none;
}

abbrev pub ann : User
ann = record {
  id = 7;
  created_at = 1;
  deleted_at = none;
  name = "Ann";
  email = "ann@shop";
  password = "hash";
  role = user;
  refresh_token = none;
  language = "pt-BR";
  customer_id = none;
}

abbrev pub root : User
root = record ann { id = 8; name = "Root"; email = "root@shop"; role = superadmin }

abbrev pub pen : Item
pen = record {
  id = 1;
  created_at = 1;
  deleted_at = none;
  name = "Pen";
  description = "Blue";
  stock = pos 5;
  price = 100;
  price_payment_id = some "price";
}

abbrev pub ink : Item
ink = record pen { id = 2; name = "Ink"; price = 30; stock = pos 9 }

abbrev pub line : ℕ → ℕ → ℕ → ℕ → OrderItem
line id order_id item_id quantity = record {
  id = id;
  order_id = order_id;
  item_id = item_id;
  quantity = quantity;
}

abbrev pub bill : Payment
bill = record {
  id = 50;
  created_at = 2;
  deleted_at = none;
  order_id = 11;
  user_id = 7;
  stripe_payment_intent_id = 77;
  stripe_client_secret = none;
  status = "open";
}

abbrev pub notice : Notification
notice = record {
  id = 20;
  created_at = 3;
  deleted_at = none;
  user_id = 7;
  type = push;
  event = order_paid;
  data_of = no_data;
  read = false;
  read_at = none;
}

abbrev pub payload : JobPayload
payload = record { timestamp = 5; correlation_id = 31; body = process_order 11 }

abbrev pub message : Outbox
message = record {
  id = 30;
  created_at = 5;
  correlation_id = 31;
  type = order_process;
  payload = payload;
}

abbrev pub job : QueueJob
job = record { name = order_process; payload = payload; job_id = 30 }

abbrev pub db : Db
db = record {
  orders = order 10 processed ∷ order 11 paid ∷ order 12 pending ∷ [];
  order_items = line 60 11 1 2 ∷ line 61 11 2 1 ∷ line 62 11 1 1 ∷ line 63 10 2 4 ∷ [];
  items = pen ∷ ink ∷ [];
  users = ann ∷ root ∷ [];
  addresses = [];
  payments = bill ∷ [];
  refunds = [];
  customers = [];
  notifications = notice ∷ [];
  outbox = message ∷ [];
}

abbrev pub shop : World
shop = record {
  env = env;
  committed = db;
  tx = none;
  held = [];
  cache = [];
  gateway_log = [];
  order_queue = [];
  payment_queue = [];
  effect_queue = [];
  user_queue = [];
  is_processing = false;
  is_shutting_down = false;
  ticks = 0;
  next_id = 1000;
  now = 500;
  correlation = none;
}

-- The shop while its gateway is down.
abbrev pub closed : World
closed = record shop { env = env_down }

-- The shop while another operation holds the lock of order 11.
abbrev pub busy : World
busy = record shop { held = record { space = order_update; id = 11 } ∷ [] }

-- Ann with a refresh token, and the shop that knows it.
abbrev pub member : User
member = record ann { refresh_token = some "t1" }

abbrev pub signed_in : World
signed_in = record shop { committed = record db { users = member ∷ root ∷ [] } }
