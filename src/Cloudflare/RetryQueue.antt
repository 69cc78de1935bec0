-- ===== src/Cloudflare/RetryQueue.antt =====
-- internal/cloudflare/retry_queue.go. The map of items is an association list in the order of insertion;
-- the code walks it in any order, on which nothing of the state depends. The callbacks that count are left
-- out. What a pass gets from outside is a parameter: whether the retry of a key succeeds, and what the
-- clock says behind it.
pub mod RetryBounds
use bouine.Prelude.{
  ℕ, suc, ◌+◌, ◌-◌, ◌^◌, Bool, true, false, not, List, [], ◌∷◌, ◌++◌, Option, none, some, ltb,
  if◌then◌else◌, length,
}
use bouine.Prelude.Bytes.{Bytes, codes, eq_bytes}
use bouine.Prelude.Int.{ℤ, pos, leb_ℤ, ltb_ℤ, ◌*ℤ◌, wrap64}
use bouine.Api.Object.{add_time, before}
use bouine.Cloudflare.Circuit.{or_default}

pub data BatchKind : Type 0 where
  kind_urls kind_tags kind_prefixes kind_hosts : BatchKind

pub record RetryQueueConfig : Type 0 where
  pub max_queue_size : ℤ
  pub max_retries : ℤ
  pub base_delay : ℤ
  pub max_delay : ℤ

pub record QueueItem : Type 0 where
  pub next_retry : ℤ
  pub value : Bytes
  pub kind : BatchKind
  pub attempts : ℕ

pub record RetryQueue : Type 0 where
  pub cfg : RetryQueueConfig
  pub items : List (Bytes × QueueItem)
  pub order : List Bytes

unfoldable pub new_retry_queue : RetryQueueConfig → RetryQueue
new_retry_queue cfg = record {
  cfg = record {
    max_queue_size = or_default cfg.max_queue_size (pos 1000);
    max_retries = or_default cfg.max_retries (pos 3);
    base_delay = or_default cfg.base_delay (pos 1000000000);
    max_delay = or_default cfg.max_delay (pos 30000000000);
  };
  items = [];
  order = [];
}

-- The number of the kind, in decimal.
abbrev pub kind_text : BatchKind → Bytes
kind_text kind_urls = codes "0"
kind_text kind_tags = codes "1"
kind_text kind_prefixes = codes "2"
kind_text kind_hosts = codes "3"

unfoldable pub item_key : BatchKind → Bytes → Bytes
item_key kind value = kind_text kind ++ (codes ":" ++ value)

unfoldable pub has_item : Bytes → List (Bytes × QueueItem) → Bool
has_item key [] = false
has_item key ((k, item) ∷ items) = if eq_bytes k key then true else has_item key items

unfoldable pub delete_item : Bytes → List (Bytes × QueueItem) → List (Bytes × QueueItem)
delete_item key [] = []
delete_item key ((k, item) ∷ items) =
    let rest = delete_item key items in if eq_bytes k key then items else (k, item) ∷ rest

unfoldable pub remove_from_order : Bytes → List Bytes → List Bytes
remove_from_order key [] = []
remove_from_order key (k ∷ order) =
    let rest = remove_from_order key order in if eq_bytes k key then order else k ∷ rest

unfoldable pub drop_key : Bytes → RetryQueue → RetryQueue
drop_key key rq = record rq {
  items = delete_item key rq.items;
  order = remove_from_order key rq.order;
}

-- A new item, which waits for its first retry.
unfoldable pub append_item : ℤ → BatchKind → Bytes → RetryQueue → RetryQueue
append_item now kind value rq =
    let item : QueueItem = record {
      next_retry = add_time now rq.cfg.base_delay;
      value = value;
      kind = kind;
      attempts = 0;
    } in
    let key = item_key kind value in
    record rq { items = rq.items ++ ((key, item) ∷ []); order = rq.order ++ (key ∷ []) }

unfoldable pub enqueue : ℤ → BatchKind → Bytes → RetryQueue → RetryQueue
enqueue now kind value rq =
    if has_item (item_key kind value) rq.items
    then rq
    else if leb_ℤ rq.cfg.max_queue_size (pos (length rq.items))
    then rq
    else append_item now kind value rq

abbrev pub is_due : ℤ → QueueItem → Bool
is_due now item = not (before now item.next_retry)

abbrev pub has_tries : RetryQueueConfig → QueueItem → Bool
has_tries cfg item = ltb_ℤ (pos item.attempts) cfg.max_retries

-- The first loop of processReady counts an attempt of each item that is due and has tries left.
unfoldable pub count_attempts :
    RetryQueueConfig → ℤ → List (Bytes × QueueItem) → List (Bytes × QueueItem)
count_attempts cfg now [] = []
count_attempts cfg now ((k, item) ∷ items) =
    let rest = count_attempts cfg now items in
    if is_due now item
    then (if has_tries cfg item
        then (k, record item { attempts = suc item.attempts }) ∷ rest
        else (k, item) ∷ rest)
    else (k, item) ∷ rest

-- The keys that it finds expired, and those it finds ready.
unfoldable pub expired_keys : RetryQueueConfig → ℤ → List (Bytes × QueueItem) → List Bytes
expired_keys cfg now [] = []
expired_keys cfg now ((k, item) ∷ items) =
    let rest = expired_keys cfg now items in
    if is_due now item then (if has_tries cfg item then rest else k ∷ rest) else rest

unfoldable pub ready_keys : RetryQueueConfig → ℤ → List (Bytes × QueueItem) → List Bytes
ready_keys cfg now [] = []
ready_keys cfg now ((k, item) ∷ items) =
    let rest = ready_keys cfg now items in
    if is_due now item then (if has_tries cfg item then k ∷ rest else rest) else rest

unfoldable pub drop_keys : List Bytes → RetryQueue → RetryQueue
drop_keys [] rq = rq
drop_keys (key ∷ keys) rq = drop_keys keys (drop_key key rq)

-- `1 << uint(attempts-1)`, an int64, and the product that can wrap.
unfoldable pub exponential_delay : RetryQueueConfig → ℕ → ℤ
exponential_delay cfg attempts =
    let delay = wrap64 (cfg.base_delay *ℤ wrap64 (pos (2 ^ (attempts - 1)))) in
    if ltb_ℤ cfg.max_delay delay then cfg.max_delay else delay

-- A retry that failed: the item waits for its next.
unfoldable pub postpone :
    RetryQueueConfig → Bytes → ℤ → List (Bytes × QueueItem) → List (Bytes × QueueItem)
postpone cfg key now [] = []
postpone cfg key now ((k, item) ∷ items) =
    let rest = postpone cfg key now items in
    if eq_bytes k key
    then (k, record item { next_retry = add_time now (exponential_delay cfg item.attempts) })
      ∷ items
    else (k, item) ∷ rest

unfoldable pub retry_each : (Bytes → Bool) → (Bytes → ℤ) → List Bytes → RetryQueue → RetryQueue
retry_each succeeds clock [] rq = rq
retry_each succeeds clock (key ∷ keys) rq = retry_each succeeds clock keys (
    if succeeds key
    then drop_key key rq
    else record rq { items = postpone rq.cfg key (clock key) rq.items })

unfoldable pub process_ready : (Bytes → Bool) → (Bytes → ℤ) → ℤ → RetryQueue → RetryQueue
process_ready succeeds clock now rq = retry_each succeeds clock (ready_keys rq.cfg now rq.items) (
    drop_keys (expired_keys rq.cfg now rq.items)
      (record rq { items = count_attempts rq.cfg now rq.items }))
