-- ===== src/Tests/Retries.antt =====
-- internal/cloudflare/retry_queue.go with one purge that fails.
use bouine.Prelude.{false}
use bouine.Prelude.Bytes.{codes}
use bouine.Prelude.Int.{pos}
use bouine.Cloudflare.RetryQueue.{
  RetryQueueConfig, RetryQueue, kind_tags, new_retry_queue, enqueue, process_ready,
}
use bouine.Cloudflare.RetryQueue.RetryBounds

abbrev default_queue : RetryQueueConfig
default_queue = record {
  max_queue_size = pos 0;
  max_retries = pos 0;
  base_delay = pos 0;
  max_delay = pos 0;
}

abbrev one_failed : RetryQueue
one_failed =
    process_ready (λ key. false) (λ key. pos 3000000000) (pos 3000000000)
      (enqueue (pos 1000000000) kind_tags (codes "news") (new_retry_queue default_queue))
