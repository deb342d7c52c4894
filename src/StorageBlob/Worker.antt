-- ===== src/StorageBlob/Worker.antt =====
-- The upload workers of azurerm/resource_arm_storage_blob.go: `resourceArmStorageBlobPageUploadWorker` and
-- `resourceArmStorageBlobBlockUploadWorker`, which run side by side, and what the two
-- `…UploadFromSource` do with them: fill a channel, start the workers, wait, and look for an error.
pub mod Settled
pub mod Calls
pub mod Progress
use terraform_provider_azure.Base.{
  ℕ, zero, suc, ◌+◌, ◌-◌, ◌%◌, ◌≤◌, ◌<◌, ◌≡◌, Bool, true, false, Option, none, some, List, [], ◌∷◌,
  ◌++◌, map, length, ltb, if◌then◌else◌, arith,
}
use terraform_provider_azure.StorageBlob.Model.{ByteRange, rounded_size, min_page_size}
use terraform_provider_azure.StorageBlob.Pages.Passes.{IsRange}

-- The first and the last byte that a page worker writes: the range, cut at the end of the blob.
unfoldable pub sent_range : ℕ → ByteRange → ℕ × ℕ
sent_range blob_size r =
    let last = r.offset + r.length_ - 1 in
    (r.offset, (if ltb (blob_size - 1) last then blob_size - 1 else last))

-- What a worker writes of a range of the split lies inside the file, and is the part of the range
-- that does.
pub sent_range_lem :
    (size : ℕ) (r : ByteRange)
    → IsRange (rounded_size size) r
    → ((sent_range size r).0 ≡ r.offset)
      × ((sent_range size r).0 ≤ (sent_range size r).1)
      × ((sent_range size r).1 < size)
      × ((x : ℕ) → r.offset ≤ x → x < r.offset + r.length_ → x < size → x ≤ (sent_range size r).1)
unfolding sent_range rounded_size
sent_range_lem size r h = (ground arith, ground arith, ground arith, λ x a b c. ground arith)

-- What reading the section of an item gives: nothing, or the chunk, and whether an error (`io.EOF`) is
-- left in `err`.
pub data Reading : Type 0 where
  unread : Reading
  chunk : Bool → Reading

-- The reading and the sending of an item, which are the standard library's and the SDK's.
pub record Transfer : Type 1 where
  pub Item : Type 0
  pub Cloud : Type 0
  pub read : Item → Reading
  pub send : Item → Cloud → Bool × Cloud
  pub attempts : ℕ
  pub workers : ℕ

module _ (transfer : Transfer) where
  -- An item in the hands of a worker: the attempts that are left, and whether `err` is set.
  pub record Job : Type 0 where
    pub item : transfer.Item
    pub left : ℕ
    pub failing : Bool

  -- The channel, the items in hand, the errors in their channel, the counter of the wait group, and
  -- the service; the sends that the service took are recorded.
  pub record Pool : Type 0 where
    pub queue : List transfer.Item
    pub busy : List Job
    pub errors : List transfer.Item
    pub waiting : ℕ
    pub accepted : List transfer.Item
    pub cloud : transfer.Cloud

  -- `wg.Add(len(parts))`, and all parts in the channel.
  unfoldable pub initial : List transfer.Item → transfer.Cloud → Pool
  initial parts cloud = record {
    queue = parts;
    busy = [];
    errors = [];
    waiting = length parts;
    accepted = [];
    cloud = cloud;
  }

  -- An item fails: its error goes to the channel, and `wg.Done()`.
  abbrev pub fail : Pool → transfer.Item → List Job → Pool
  fail s p busy = record s { busy = busy; errors = s.errors ++ p ∷ []; waiting = s.waiting - 1 }

  -- A step of one of the workers.
  pub data Step (s : Pool) : Pool → Type 0 where
    -- A worker with no item takes the next one, and reads its section.
    start :
        (p : transfer.Item) (queue : List transfer.Item) (failing : Bool)
        → length s.busy < transfer.workers
        → s.queue ≡ p ∷ queue
        → transfer.read p ≡ chunk failing
        → Step s (record s {
          queue = queue;
          busy = record { item = p; left = transfer.attempts; failing = failing } ∷ s.busy;
        })
    -- The same, but the section cannot be read.
    start_fails :
        (p : transfer.Item) (queue : List transfer.Item)
        → length s.busy < transfer.workers
        → s.queue ≡ p ∷ queue
        → transfer.read p ≡ unread
        → Step s (fail (record s { queue = queue }) p s.busy)
    -- An attempt that the service takes ends the item.
    attempt :
        (before after : List Job) (job : Job) (left : ℕ) (cloud : transfer.Cloud)
        → s.busy ≡ before ++ job ∷ after
        → job.left ≡ suc left
        → transfer.send job.item s.cloud ≡ (true, cloud)
        → Step s (record s {
          busy = before ++ after;
          waiting = s.waiting - 1;
          accepted = s.accepted ++ job.item ∷ [];
          cloud = cloud;
        })
    -- One that it does not take leaves the error and one attempt less.
    attempt_fails :
        (before after : List Job) (job : Job) (left : ℕ) (cloud : transfer.Cloud)
        → s.busy ≡ before ++ job ∷ after
        → job.left ≡ suc left
        → transfer.send job.item s.cloud ≡ (false, cloud)
        → Step s (record s {
          busy = before ++ record { item = job.item; left = left; failing = true } ∷ after;
          cloud = cloud;
        })
    -- With no attempt left, the item fails if the error is set, and ends if it is not.
    give_up :
        (before after : List Job) (job : Job)
        → s.busy ≡ before ++ job ∷ after
        → job.left ≡ zero
        → job.failing ≡ true
        → Step s (fail s job.item (before ++ after))
    finish :
        (before after : List Job) (job : Job)
        → s.busy ≡ before ++ job ∷ after
        → job.left ≡ zero
        → job.failing ≡ false
        → Step s (record s { busy = before ++ after; waiting = s.waiting - 1 })

  -- The states that the workers can reach.
  pub data Reach (parts : List transfer.Item) (cloud : transfer.Cloud) : Pool → Type 0 where
    at_start : Reach parts cloud (initial parts cloud)
    then_step : (s t : Pool) → Reach parts cloud s → Step s t → Reach parts cloud t

  -- `len(errors) > 0` after the wait.
  unfoldable pub has_failed : Pool → Bool
  has_failed s = ltb 0 (length s.errors)
