-- ===== src/Tests/Platform.antt =====
-- The clock, the environment, the rings and the tags.
use compuguessr.Base.{
  ℕ, zero, suc, ◌+◌, ◌≤◌, ◌≡◌, ◌≢◌, refl, true, false, none, List, [], ◌∷◌, ◌++◌, arith,
  length-replicate, replicate,
}
use compuguessr.Base.Int.{pos, negsuc}
use compuguessr.Base.Text.{codes}
use compuguessr.Env.{default_env, read_entries}
use compuguessr.Env.Settings.{set_to, last_setting, read_entries_settings}
use compuguessr.Time.{datetime}
use compuguessr.Time.Date.{IsTime, datetime-IsTime}
use compuguessr.Uring.{Ring, Sqe, accept, zero_sqe, zero_cqe, cq_peek, cq_discard}
use compuguessr.Uring.Queue.{
  IsRing, pending, queued, submit, submit-pending, submit_overruns, HasCompletions, completed,
  first, head?, peek_discard,
}
use compuguessr.Uring.Setup.{Kernel}

datetime-IsTime_example : IsTime (datetime 1709210096) 1709210096
datetime-IsTime_example = datetime-IsTime 1709210096 (omega arith)

abbrev settings : List (List ℕ)
settings = codes "HOME=/root" ∷ codes "FASTCGI_SOCK=/run/quiz.sock" ∷ []

read_entries_settings_example :
    read_entries default_env settings ≡ set_to default_env (last_setting settings none)
read_entries_settings_example = read_entries_settings settings

abbrev pub ring : Ring
ring = record {
  sq_entries = 64;
  sqes = replicate 64 zero_sqe;
  sqe_tail = 0;
  sq_mask = 63;
  asleep = false;
  array = replicate 64 0;
  sq_tail = 0;
  cq_head = 0;
  cq_tail = 2;
  cq_mask = 127;
  cqes = replicate 128 zero_cqe;
}

ring-IsRing : IsRing ring 0 0
ring-IsRing = record {
  entries = refl;
  mask = refl;
  slots = length-replicate 64 zero_sqe;
  places = length-replicate 64 0;
  tail = refl;
  same_tail = refl;
  named = λ p low high. absurd (omega arith);
}

abbrev listening : Sqe
listening = record zero_sqe { opcode = accept; fd = pos 3 }

submit-pending_example :
    (pending (submit ring listening) 0 (0 + 1) ≡ pending ring 0 0 ++ listening ∷ [])
    × IsRing (submit ring listening) 0 (0 + 1)
submit-pending_example = submit-pending ring 0 0 listening ring-IsRing (omega arith)

-- The ring with `n` entries that wait.
unfoldable full : ℕ → Ring
full zero = ring
full (suc n) = submit (full n) listening

full-IsRing : (n : ℕ) → n ≤ 64 → IsRing (full n) 0 n
unfolding full
full-IsRing zero few = ring-IsRing
full-IsRing (suc n) few =
    let one_more : n + 1 ≡ suc n = omega arith in
    let r = (submit-pending (full n) 0 n listening (full-IsRing n (omega arith)) (omega arith)).1 in
    rw one_more at r

submit_overruns_example : queued (submit (full 64) listening) 0 ≡ listening
submit_overruns_example = submit_overruns (full 64) 0 listening (full-IsRing 64 (omega arith))

abbrev two : ℕ
two = 2

peek_discard_example :
    (first ring (cq_peek ring) ≡ head? (completed ring 0 2))
    × (two ≢ 0 → HasCompletions (cq_discard ring 1) (0 + 1) 1)
peek_discard_example =
    peek_discard ring 0 2 (record { mask = refl; here = refl; tail = refl; few = omega arith })

abbrev kernel : Kernel
kernel = record {
  fd = pos 4;
  sq_entries = 64;
  cq_entries = 128;
  sq_array = 320;
  cq_cqes = 64;
  single = true;
  sq_map = pos 4096;
  cq_map = pos 4096;
  sqe_map = negsuc 0;
}
