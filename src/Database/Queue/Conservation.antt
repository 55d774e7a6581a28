-- ===== src/Database/Queue/Conservation.antt =====
-- No post is lost or saved twice by the queue.
use sitebrush_v.Prelude.{
  ℕ, ◌+◌, ◌≤◌, ◌≡◌, refl, Bool, List, [], ◌∷◌, ◌++◌, Option, none, some, length, length-append,
  count_if, count_if-append, arith,
}
use sitebrush_v.Text.{Text}
use sitebrush_v.Data.{Post}
use sitebrush_v.Database.Queue.{
  Queue, requeue, process, State, finish_task, Step, submit, respawn, take, finish, deliver, Reach,
  at_start, after_step,
}

-- How many of the posts that a test picks are in the queue.
abbrev pub queued : (Post → Bool) → Queue → ℕ
queued p q = count_if p q.buffer + count_if p q.waiting

queued-requeue :
    (p : Post → Bool) (q : Queue) (task : Post)
    → queued p (requeue q task) ≡ queued p q + count_if p (task ∷ [])
unfolding requeue
queued-requeue p q task =
    ground (arith, count_if-append p q.buffer (task ∷ []), count_if-append p q.waiting (task ∷ []))

within-requeue :
    (q : Queue) (task : Post)
    → length q.buffer ≤ q.capacity
    → length (requeue q task).buffer ≤ (requeue q task).capacity
unfolding requeue
within-requeue q task h = ground (arith, length-append q.buffer (task ∷ []))

count-remove :
    (p : Post → Bool) (before : List Post) (task : Post) (after : List Post)
    → count_if p (before ++ task ∷ after) ≡ count_if p (before ++ after) + count_if p (task ∷ [])
count-remove p before task after =
    ground (arith, count_if-append p before (task ∷ after), count_if-append p before after)

length-remove :
    (before : List Post) (task : Post) (after : List Post)
    → length (before ++ task ∷ after) ≡ length (before ++ after) + 1
length-remove before task after =
    omega (arith, length-append before (task ∷ after), length-append before after)

-- Every test picks as many of the submitted posts as of the saved ones, those in a worker's hand and
-- the queued ones together; the channel is within its capacity; there are no more workers than slots.
pub record Conserves (s : State) : Type 0 where
  pub accounted :
      (p : Post → Bool)
      → count_if p s.submitted ≡ count_if p s.saved + count_if p s.in_hand + queued p s.queue
  pub within : length s.queue.buffer ≤ s.queue.capacity
  pub few : s.idle + length s.in_hand ≤ s.slots

module _ (s : State) (before : List Post) (task : Post) (after : List Post)
    (e : s.in_hand ≡ before ++ task ∷ after) (c : Conserves s) where
  finish-accounted :
      (outcome : Option Text) (p : Post → Bool)
      → count_if p (finish_task s (before ++ after) task outcome).submitted
        ≡ count_if p (finish_task s (before ++ after) task outcome).saved
          + count_if p (finish_task s (before ++ after) task outcome).in_hand
          + queued p (finish_task s (before ++ after) task outcome).queue
  unfolding finish_task process
  finish-accounted none p = ground (
    arith,
    c.accounted p,
    count-remove p before task after,
    count_if-append p s.saved (task ∷ []),
  )
  finish-accounted (some m) p =
      ground (arith, c.accounted p, count-remove p before task after, queued-requeue p s.queue task)

  finish-within :
      (outcome : Option Text)
      → length (finish_task s (before ++ after) task outcome).queue.buffer
        ≤ (finish_task s (before ++ after) task outcome).queue.capacity
  unfolding finish_task process
  finish-within none = c.within
  finish-within (some m) = ground (arith, within-requeue s.queue task c.within)

  finish-few :
      (outcome : Option Text)
      → (finish_task s (before ++ after) task outcome).idle
          + length (finish_task s (before ++ after) task outcome).in_hand
        ≤ (finish_task s (before ++ after) task outcome).slots
  unfolding finish_task process
  finish-few none = ground (arith, c.few, length-remove before task after)
  finish-few (some m) = ground (arith, c.few, length-remove before task after)

pub Step-Conserves : {s t : State} → Step s t → Conserves s → Conserves t
Step-Conserves {s} (submit post room) c = record {
  accounted = λ p. ground (
    arith,
    c.accounted p,
    count_if-append p s.queue.buffer (post ∷ []),
    count_if-append p s.submitted (post ∷ []),
  );
  within = ground (arith, length-append s.queue.buffer (post ∷ []));
  few = c.few;
}
Step-Conserves {s} (respawn free) c = record {
  accounted = c.accounted;
  within = c.within;
  few = omega arith;
}
Step-Conserves {s} (take task rest alive e) c = record {
  accounted = λ p. ground (arith, c.accounted p, count_if-append p s.in_hand (task ∷ []));
  within = ground (arith, c.within);
  few = ground (arith, c.few, length-append s.in_hand (task ∷ []));
}
Step-Conserves {s} (finish before task after outcome e) c = record {
  accounted = finish-accounted s before task after e c outcome;
  within = finish-within s before task after e c outcome;
  few = finish-few s before task after e c outcome;
}
Step-Conserves {s} (deliver before task after e room) c = record {
  accounted = λ p. ground (
    arith,
    c.accounted p,
    count_if-append p s.queue.buffer (task ∷ []),
    count-remove p before task after,
  );
  within = ground (arith, length-append s.queue.buffer (task ∷ []));
  few = c.few;
}

-- However the handlers, the workers and the waiting goroutines interleave, and whichever saves fail,
-- the submitted posts are, with multiplicity, those saved, those in a worker's hand and those queued:
-- none is lost, and none is saved more often than it was submitted. The channel is within its
-- capacity, and there are no more workers than slots.
pub Reach-Conserves : {capacity slots : ℕ} {s : State} → Reach capacity slots s → Conserves s
Reach-Conserves at_start = record { accounted = λ p. refl; within = omega arith; few = omega arith }
Reach-Conserves (after_step r st) = Step-Conserves st (Reach-Conserves r)
