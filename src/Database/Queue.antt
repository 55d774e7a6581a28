-- ===== src/Database/Queue.antt =====
-- The channel of posts to save and its workers, in pkg/database/database.go.
pub mod Conservation
use sitebrush_v.Prelude.{
  ℕ, zero, suc, ◌+◌, ◌-◌, ◌≤◌, ◌<◌, ◌≡◌, Bool, true, false, List, [], ◌∷◌, ◌++◌, Option, none, some,
  if◌then◌else◌, ltb, length,
}
use sitebrush_v.Text.{Text, codes, contains_text}
use sitebrush_v.Data.{Post}

-- The buffered channel, oldest first, and the posts of the goroutines that wait to send.
pub record Queue : Type 0 where
  pub capacity : ℕ
  pub buffer : List Post
  pub waiting : List Post

abbrev pub has_room : Queue → Bool
has_room q = ltb (length q.buffer) q.capacity

-- requeueDatabaseSavePostTask: a send that does not block, or a goroutine that does.
unfoldable pub requeue : Queue → Post → Queue
requeue q task =
    if has_room q
    then record q { buffer = q.buffer ++ task ∷ [] }
    else record q { waiting = q.waiting ++ task ∷ [] }

unfoldable pub is_busy : Text → Bool
is_busy message = contains_text (codes "database is locked (5) (SQLITE_BUSY)") message

-- processDatabaseSavePostTask, for what `save` returned: nil or the error's message.
unfoldable pub process : Queue → Post → Option Text → Queue × Option Text
process q task none = (q, none)
process q task (some message) =
    if is_busy message then (requeue q task, none) else (requeue q task, some message)

-- The queue with its workers, and what was submitted and saved so far. `idle` workers wait for the
-- channel; `in_hand` are the posts that the others are saving. A slot of respawnLock is taken for
-- each worker, and there are `slots` of them (databaseWorkersMaxCount).
pub record State : Type 0 where
  pub queue : Queue
  pub slots : ℕ
  pub idle : ℕ
  pub in_hand : List Post
  pub submitted : List Post
  pub saved : List Post

-- What a worker does once `save` has returned, in databaseWorkerRun's case on the channel: it
-- goes back to the channel, or it ends and gives its slot back.
unfoldable pub finish_task : State → List Post → Post → Option Text → State
finish_task s others task outcome =
    let (q, error) = process s.queue task outcome in
    record s {
      queue = q;
      in_hand = others;
      saved = elim outcome [ none ↦ s.saved ++ task ∷ [] | some _ ↦ s.saved ];
      idle = elim error [ none ↦ s.idle + 1 | some _ ↦ s.idle ];
    }

-- A handler sends a post; Run starts a worker; a worker takes the first post of the channel; its
-- save returns; a waiting goroutine's send goes through.
pub data Step (s : State) : State → Type 0 where
  submit :
      (post : Post)
      → has_room s.queue ≡ true
      → Step s (record s {
        queue = record (s.queue) { buffer = s.queue.buffer ++ post ∷ [] };
        submitted = s.submitted ++ post ∷ [];
      })
  respawn : s.idle + length s.in_hand < s.slots → Step s (record s { idle = s.idle + 1 })
  take :
      (task : Post) (rest : List Post)
      → 0 < s.idle
      → s.queue.buffer ≡ task ∷ rest
      → Step s (record s {
        queue = record (s.queue) { buffer = rest };
        idle = s.idle - 1;
        in_hand = s.in_hand ++ task ∷ [];
      })
  finish :
      (before : List Post) (task : Post) (after : List Post) (outcome : Option Text)
      → s.in_hand ≡ before ++ task ∷ after
      → Step s (finish_task s (before ++ after) task outcome)
  deliver :
      (before : List Post) (task : Post) (after : List Post)
      → s.queue.waiting ≡ before ++ task ∷ after
      → has_room s.queue ≡ true
      → Step s (record s {
        queue = record (s.queue) {
          buffer = s.queue.buffer ++ task ∷ [];
          waiting = before ++ after;
        };
      })

abbrev pub started : ℕ → ℕ → State
started capacity slots = record {
  queue = record { capacity = capacity; buffer = []; waiting = [] };
  slots = slots;
  idle = 0;
  in_hand = [];
  submitted = [];
  saved = [];
}

pub data Reach (capacity slots : ℕ) : State → Type 0 where
  at_start : Reach capacity slots (started capacity slots)
  after_step : {s t : State} → Reach capacity slots s → Step s t → Reach capacity slots t
