-- ===== src/Database/Tests.antt =====
-- Witnesses for the laws of the database: one page, one redirect, and a queue with room for one post.
use sitebrush_v.Prelude.{◌≡◌, ℕ, refl, ◌++◌, List, [], ◌∷◌, true, false, some, Option, arith}
use sitebrush_v.Prelude.Int.{pos}
use sitebrush_v.Text.{Text, codes}
use sitebrush_v.Data.{Post}
use sitebrush_v.Database.Sql.{sqlite, Answers}
use sitebrush_v.Database.Posts.{save_all}
use sitebrush_v.Database.Posts.Gapless.{revisions, numbered, revisions-save_all}
use sitebrush_v.Database.Queue.{
  State, started, submit, respawn, take, finish, finish_task, Reach, at_start, after_step,
}
use sitebrush_v.Database.Queue.Conservation.{Conserves, Reach-Conserves}

abbrev sample_post : Post
sample_post = record {
  id = pos 1;
  owner_id = pos 0;
  editor_id = pos 0;
  deleter_id = pos 0;
  request_uri = codes "/about";
  type = [];
  date = pos 0;
  title = [];
  body = [];
  header = [];
  summary = [];
  short_text = [];
  tags = [];
  revision = pos 0;
  domain = codes "example.org";
  status = [];
  published = true;
}

abbrev all_well : Answers
all_well = record {
  connected = true;
  begins = true;
  selects = true;
  draws = true;
  deletes = true;
  inserts = true;
  reports_id = true;
  commits = true;
  row_id = pos 9;
  random_id = pos 8;
}

abbrev no_commit : Answers
no_commit = record {
  connected = true;
  begins = true;
  selects = true;
  draws = true;
  deletes = true;
  inserts = true;
  reports_id = true;
  commits = false;
  row_id = pos 9;
  random_id = pos 8;
}

abbrev sample_saves : List (Answers × Post)
sample_saves = (all_well, sample_post) ∷ (no_commit, sample_post) ∷ (all_well, sample_post) ∷ []

revisions-save_all_example :
    (k : ℕ) × (revisions (codes "/about") (codes "example.org") (save_all sqlite [] sample_saves)
      ≡ numbered k)
revisions-save_all_example =
    revisions-save_all sqlite sample_saves (codes "/about") (codes "example.org")

-- A worker starts, one post is sent and taken, and its save finds the database busy.
abbrev sent : State
sent = record (started 1 1) {
  idle = 1;
  queue = record { capacity = 1; buffer = sample_post ∷ []; waiting = [] };
  submitted = sample_post ∷ [];
}

abbrev taken : State
taken = record sent {
  idle = 0;
  queue = record { capacity = 1; buffer = []; waiting = [] };
  in_hand = sample_post ∷ [];
}

abbrev busy : Option Text
busy = some (codes "database is locked (5) (SQLITE_BUSY)")

sample_run : Reach 1 1 (finish_task taken ([] ++ []) sample_post busy)
sample_run =
    after_step
      (after_step
        (after_step (after_step at_start (respawn (omega arith))) (submit sample_post refl))
        (take sample_post [] (omega arith) refl))
      (finish [] sample_post [] busy refl)

Reach-Conserves_example : Conserves (finish_task taken ([] ++ []) sample_post busy)
Reach-Conserves_example = Reach-Conserves sample_run
