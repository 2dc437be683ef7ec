-- ===== src/Services/Renewal/Lifecycle.antt =====
-- Start and Stop of internal/services/cert_renewal.go, in any order and with any steps of the loops
-- in between.
use webrana_infinimail_backe.Websocket.Sets.{member}
use webrana_infinimail_backe.Services.Renewal.{
  Job, JobEvent, change_loop, remove_stopped, job_step, LoopState, close_stop_channel, is_stopped,
  reach_select, to_select, fire, to_round, leave_loop, start, stop, job_run, new_job, in_round,
  continue_with,
}
use webrana_infinimail_backe.Prelude.{
  zero, suc, [], true, false, some, inl, inr, refl, ◌∷◌, List, ℕ, All, ◌≡◌, ◌≤◌, arith, length,
  Bool-cases, ap, none, ◌++◌, if◌then◌else◌, length-append, ◌∙◌, subst, sym, Option, ◌+◌,
}

-- The channels that were closed are none to come, and a running job's is open.
record IsSound (j : Job) : Type 0 where
  past : All (λ c. c ≤ j.channel) j.closed
  open_ : j.running ≡ true → member j.channel j.closed ≡ false

-- A start is early when the job is stopped and a loop of an earlier run is left.
abbrev is_left : List LoopState → ℕ
is_left [] = 0
is_left (l ∷ ls) = 1

unfoldable pub is_early : JobEvent → Job → ℕ
is_early start j = if j.running then 0 else is_left j.loops
is_early stop j = 0
is_early (reach_select i) j = 0
is_early (fire i) j = 0
is_early (leave_loop i) j = 0

abbrev count_with : (Job → ℕ) → Option Job → ℕ
count_with rest none = 0
count_with rest (some j) = rest j

-- the early starts of a run
unfoldable pub early_starts : List JobEvent → Job → ℕ
unfolding is_early
early_starts [] j = 0
early_starts (e ∷ es) j = is_early e j + count_with (early_starts es) (job_step e j)

member-past : (n : ℕ) (closed : List ℕ) → All (λ c. c ≤ n) closed → member (suc n) closed ≡ false
unfolding member
member-past n [] h = refl
member-past n (c ∷ cs) (le, h) = ground (arith, member-past n cs h)

All-later : (n m : ℕ) (closed : List ℕ) → n ≤ m → All (λ c. c ≤ n) closed → All (λ c. c ≤ m) closed
All-later n m [] le h = tt
All-later n m (c ∷ cs) le (first, h) = (omega (arith, le, first), All-later n m cs le h)

length-change :
    (f : LoopState → LoopState) (i : ℕ) (ls : List LoopState)
    → length (change_loop f i ls) ≡ length ls
unfolding change_loop
length-change f i [] = refl
length-change f zero (l ∷ ls) = refl
length-change f (suc i) (l ∷ ls) = ap suc (length-change f i ls)

length-remove :
    (closed : List ℕ) (i : ℕ) (ls : List LoopState)
    → length (remove_stopped closed i ls) ≤ length ls
unfolding remove_stopped
length-remove closed i [] = omega arith
length-remove closed zero (l ∷ ls) = elim (Bool-cases (is_stopped closed l)) [
  | inl e ↦ rw e (omega arith)
  | inr e ↦ rw e (omega arith)
]
length-remove closed (suc i) (l ∷ ls) = omega (arith, length-remove closed i ls)

length-start :
    (ls : List LoopState) (n : ℕ)
    → length ls ≤ 1 + n
    → length (ls ++ in_round ∷ []) ≤ 1 + (n + is_left ls)
length-start [] n h = omega arith
length-start (l ∷ ls) n h = omega (arith, h, length-append ls (in_round ∷ []))

-- What one step gives.
record Stepped (e : JobEvent) (j : Job) : Type 0 where
  after : Job
  steps : job_step e j ≡ some after
  sound : IsSound after
  few : (n : ℕ) → length j.loops ≤ 1 + n → length after.loops ≤ 1 + (n + is_early e j)

step-Stepped : (e : JobEvent) (j : Job) → IsSound j → Stepped e j
unfolding job_step close_stop_channel is_early
step-Stepped start j s =
    let fresh : Job = record j {
      running = true;
      channel = suc j.channel;
      loops = j.loops ++ in_round ∷ [];
    } in
    elim (Bool-cases j.running) [
      | inl on ↦ record {
        after = j;
        steps = ap (λ b. some (if b then j else fresh)) on;
        sound = s;
        few = λ n h. omega (arith, h);
      }
      | inr off ↦ record {
        after = fresh;
        steps = ap (λ b. some (if b then j else fresh)) off;
        sound = record {
          past = All-later j.channel (suc j.channel) j.closed (omega arith) s.past;
          open_ = λ _. member-past j.channel j.closed s.past;
        };
        few = λ n h.
            subst (λ b. length fresh.loops ≤ 1 + (n + (if b then 0 else is_left j.loops))) (sym off)
              (length-start j.loops n h);
      }
    ]
step-Stepped stop j s =
    let ended : Job = record j { running = false; closed = j.channel ∷ j.closed } in
    elim (Bool-cases j.running) [
      | inl on ↦ record {
        after = ended;
        steps =
            ap (λ b. if b then close_stop_channel j else some j) on
            ∙ ap (λ b. if b then none else some ended) (s.open_ on);
        sound = record { past = (omega arith, s.past); open_ = λ h. cc h };
        few = λ n h. omega (arith, h);
      }
      | inr off ↦ record {
        after = j;
        steps = ap (λ b. if b then close_stop_channel j else some j) off;
        sound = s;
        few = λ n h. omega (arith, h);
      }
    ]
step-Stepped (reach_select i) j s = record {
  after = record j { loops = change_loop (to_select j.channel) i j.loops };
  steps = refl;
  sound = record { past = s.past; open_ = s.open_ };
  few = λ n h. omega (arith, h, length-change (to_select j.channel) i j.loops);
}
step-Stepped (fire i) j s = record {
  after = record j { loops = change_loop to_round i j.loops };
  steps = refl;
  sound = record { past = s.past; open_ = s.open_ };
  few = λ n h. omega (arith, h, length-change to_round i j.loops);
}
step-Stepped (leave_loop i) j s = record {
  after = record j { loops = remove_stopped j.closed i j.loops };
  steps = refl;
  sound = record { past = s.past; open_ = s.open_ };
  few = λ n h. omega (arith, h, length-remove j.closed i j.loops);
}

-- What the rest of a run gives, with the early starts before it.
run_after :
    (es : List JobEvent) (j : Job) (n : ℕ)
    → IsSound j
    → length j.loops ≤ 1 + n
    → (k : Job) × (job_run es j ≡ some k)
      × (k.running ≡ true → member k.channel k.closed ≡ false)
      × (length k.loops ≤ 1 + (n + early_starts es j))
unfolding job_run continue_with early_starts
run_after [] j n s few = (j, refl, s.open_, omega (arith, few))
run_after (e ∷ es) j n s few =
    let t : Stepped e j = step-Stepped e j s in
    let (k, p, open_, le) = run_after es t.after (n + is_early e j) t.sound (t.few n few) in
    (
      k,
      ap (continue_with (job_run es)) t.steps ∙ p,
      open_,
      omega (arith, le, ap (count_with (early_starts es)) t.steps),
    )

-- Start and Stop, in any order and with any steps of the loops in between, never close a channel
-- twice; a job that runs has an open stop channel; and there are at most as many loops as starts of
-- a stopped job that has a loop left, and one more.
pub job_run-safe :
    (es : List JobEvent)
    → (j : Job) × (job_run es new_job ≡ some j)
      × (j.running ≡ true → member j.channel j.closed ≡ false)
      × (length j.loops ≤ 1 + early_starts es new_job)
unfolding new_job
job_run-safe es =
    let sound : IsSound new_job = record { past = tt; open_ = λ h. cc h } in
    let (j, p, open_, le) = run_after es new_job 0 sound (omega arith) in
    (j, p, open_, omega (arith, le))
