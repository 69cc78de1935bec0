-- ===== src/Cloudflare/RetryQueue/RetryBounds.antt =====
-- internal/cloudflare/retry_queue.go: what Enqueue and processReady keep.
use mathlib.Core.List.{map}
use bouine.Prelude.{◌≡◌, Bool, List, [], ◌∷◌, length}
use bouine.Prelude.Bytes.{Bytes}
use bouine.Prelude.Int.{ℤ, pos, ◌≤ℤ◌}
use bouine.Cloudflare.RetryQueue.{
  BatchKind, RetryQueueConfig, QueueItem, RetryQueue, new_retry_queue, enqueue, process_ready,
}

abbrev keys_of : List (Bytes × QueueItem) → List Bytes
keys_of items = map (λ p. p.0) items

-- Each item was tried at most that often.
abbrev pub TriedAtMost : ℤ → List (Bytes × QueueItem) → Type 0
TriedAtMost most [] = Unit
TriedAtMost most ((k, item) ∷ items) = (pos item.attempts ≤ℤ most) × TriedAtMost most items

pub record IsQueue (cfg : RetryQueueConfig) (rq : RetryQueue) : Type 0 where
  pub same_cfg : rq.cfg ≡ cfg
  pub order : rq.order ≡ keys_of rq.items
  pub size : pos (length rq.items) ≤ℤ cfg.max_queue_size
  pub tries : TriedAtMost cfg.max_retries rq.items

-- What calls of Enqueue and passes of processReady lead to. A pass is one step: its parts, between which
-- calls of Enqueue can come, each keep what is stated.
pub data Reach (cfg : RetryQueueConfig) : RetryQueue → Type 0 where
  start : Reach cfg (new_retry_queue cfg)
  enqueued :
      {rq : RetryQueue} (now : ℤ) (kind : BatchKind) (value : Bytes)
      → Reach cfg rq
      → Reach cfg (enqueue now kind value rq)
  processed :
      {rq : RetryQueue} (succeeds : Bytes → Bool) (clock : Bytes → ℤ) (now : ℤ)
      → Reach cfg rq
      → Reach cfg (process_ready succeeds clock now rq)
