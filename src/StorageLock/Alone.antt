-- ===== src/StorageLock/Alone.antt =====
-- One thread at a time between the two sections under the lock.
use apollo_controller.Prelude.{
  ℕ, ◌≤◌, ◌<◌, ◌≡◌, ◌≢◌, ◌⊎◌, inl, inr, refl, sym, ap, ◌∙◌, Bool, true, false, Option, none, some,
  List, [], ◌∷◌, arith, ◌==◌, Bool-cases, ==_iff,
}
use apollo_controller.Prelude.Text.{Bytes}
use apollo_controller.StorageLock.{
  Answer, Pc, entering, waiting, checking, unmounting, releasing, returned, State, at, go, enter,
  unmount, release, step_from, step, run,
}

abbrev pub inside : Pc → Bool
inside entering = false
inside (waiting channel) = false
inside checking = true
inside unmounting = true
inside (releasing answer) = true
inside (returned answer) = false

-- At most one thread is inside, and it has made the channel in the map, which is open; no channel is
-- closed twice; and who waits does so for that channel or for one that is closed.
pub record IsExclusive (s : State) : Type 0 where
  pub alone : (t u : ℕ) → inside (s.threads t) ≡ true → inside (s.threads u) ≡ true → t ≡ u
  pub taken : (t : ℕ) → inside (s.threads t) ≡ true → s.ongoing ≢ none
  pub open_channel :
      (channel : ℕ) → s.ongoing ≡ some channel → (s.closes channel ≡ 0) × (channel < s.made)
  pub fresh : (channel : ℕ) → s.made ≤ channel → s.closes channel ≡ 0
  pub once : (channel : ℕ) → s.closes channel ≤ 1
  pub waits :
      (t channel : ℕ)
      → s.threads t ≡ waiting channel
      → (s.ongoing ≡ some channel) ⊎ (s.closes channel ≡ 1)

abbrev is_waiting : Pc → Bool
is_waiting (waiting channel) = true
is_waiting _ = false

not-both : (b : Bool) → b ≡ true → b ≡ false → ⊥
not-both b t f = ground arith

inside-at :
    (threads : ℕ → Pc) (t u : ℕ) (pc : Pc)
    → inside pc ≡ inside (threads t)
    → inside (at threads t pc u) ≡ inside (threads u)
inside-at threads t u pc h = elim (Bool-cases (t == u)) [
  | inl e ↦ rw (e, sym ((==_iff t u).0 e)) h
  | inr e ↦ rw e refl
]

-- A step that stays on its side of the lock, and after which the thread does not wait.
stays-IsExclusive :
    (s : State) (mounted : Bool) (t : ℕ) (pc : Pc)
    → inside pc ≡ inside (s.threads t)
    → is_waiting pc ≡ false
    → IsExclusive s
    → IsExclusive (record s { is_mounted = mounted; threads = at s.threads t pc })
stays-IsExclusive s mounted t pc same w v = record {
  alone = λ a b h k.
      v.alone a b (sym (inside-at s.threads t a pc same) ∙ h)
        (sym (inside-at s.threads t b pc same) ∙ k);
  taken = λ a h. v.taken a (sym (inside-at s.threads t a pc same) ∙ h);
  open_channel = v.open_channel;
  fresh = v.fresh;
  once = v.once;
  waits = λ a channel h. elim (Bool-cases (t == a)) [
    | inl e ↦ absurd (not-both (is_waiting pc) (ap is_waiting (rw e at h)) w)
    | inr e ↦ v.waits a channel (rw e at h)
  ];
}

-- A thread that finds the key in the map.
queues-IsExclusive :
    (s : State) (t channel : ℕ)
    → inside (s.threads t) ≡ false
    → s.ongoing ≡ some channel
    → IsExclusive s
    → IsExclusive (go s t (waiting channel))
queues-IsExclusive s t channel out o v = record {
  alone = λ a b h k. v.alone a b (sym (still a) ∙ h) (sym (still b) ∙ k);
  taken = λ a h. v.taken a (sym (still a) ∙ h);
  open_channel = v.open_channel;
  fresh = v.fresh;
  once = v.once;
  waits = λ a c h. elim (Bool-cases (t == a)) [
    | inl e ↦ inl (o ∙ same c (rw e at h))
    | inr e ↦ v.waits a c (rw e at h)
  ];
}
  where
    still : (a : ℕ) → inside (at s.threads t (waiting channel) a) ≡ inside (s.threads a)
    still a = inside-at s.threads t a (waiting channel) (sym out)

    same : (c : ℕ) → waiting channel ≡ waiting c → some channel ≡ some c
    same c h = cc

-- A thread that puts a channel in the map: nobody was inside.
takes-IsExclusive :
    (s : State) (t : ℕ) → s.ongoing ≡ none → IsExclusive s → IsExclusive (enter s t none)
takes-IsExclusive s t o v = record {
  alone = λ a b h k. sym (only a h) ∙ only b k;
  taken = λ a h z. cc;
  open_channel = λ c h. (ground (arith, v.fresh c, h), ground (arith, h));
  fresh = λ c l. v.fresh c (omega arith);
  once = v.once;
  waits = λ a c h. elim (Bool-cases (t == a)) [
    | inl e ↦ absurd (apart c (rw e at h))
    | inr e ↦ elim (v.waits a c (rw e at h)) [ inl q ↦ absurd (free c q) | inr q ↦ inr q ]
  ];
}
  where
    only : (a : ℕ) → inside (at s.threads t checking a) ≡ true → t ≡ a
    only a h = elim (Bool-cases (t == a)) [
      | inl e ↦ (==_iff t a).0 e
      | inr e ↦ absurd (v.taken a (rw e at h) o)
    ]

    apart : (c : ℕ) → checking ≡ waiting c → ⊥
    apart c z = cc

    free : (c : ℕ) → s.ongoing ≡ some c → ⊥
    free c q = cc

-- The thread inside takes its channel out of the map and closes it.
leaves-IsExclusive :
    (s : State) (t channel : ℕ) (answer : Answer)
    → s.threads t ≡ releasing answer
    → s.ongoing ≡ some channel
    → IsExclusive s
    → IsExclusive (release s t answer (some channel))
leaves-IsExclusive s t channel answer r o v = record {
  alone = λ a b h k. absurd (nobody a h);
  taken = λ a h. absurd (nobody a h);
  open_channel = λ c h. absurd (gone c h);
  fresh = λ c l. ground (arith, v.fresh c l, v.open_channel channel o);
  once = λ c. ground (arith, v.once c, v.open_channel channel o);
  waits = λ a c h. elim (Bool-cases (t == a)) [
    | inl e ↦ absurd (apart c (rw e at h))
    | inr e ↦ elim (v.waits a c (rw e at h)) [
      | inl q ↦ inr (ground (arith, q, o, v.open_channel channel o))
      | inr q ↦ inr (ground (arith, q, v.open_channel channel o))
    ]
  ];
}
  where
    nobody : (a : ℕ) → inside (at s.threads t (returned answer) a) ≡ true → ⊥
    nobody a h = elim (Bool-cases (t == a)) [
      | inl e ↦ not-both false (rw e at h) refl
      | inr e ↦ not-both (t == a) ((==_iff t a).1 (v.alone t a (ap inside r) (rw e at h))) e
    ]

    apart : (c : ℕ) → returned answer ≡ waiting c → ⊥
    apart c z = cc

    gone : (c : ℕ) → none ≡ some c → ⊥
    gone c z = cc

step-IsExclusive : (s : State) (t : ℕ) (e : Option Bytes) → IsExclusive s → IsExclusive (step s t e)
unfolding step step_from
step-IsExclusive s t e v = by (s.threads t) refl
  where
    by_ongoing_in :
        s.threads t ≡ entering → (o : Option ℕ) → s.ongoing ≡ o → IsExclusive (enter s t o)
    by_ongoing_in p none o = takes-IsExclusive s t o v
    by_ongoing_in p (some channel) o = queues-IsExclusive s t channel (ap inside p) o v

    by_ongoing_out :
        (answer : Answer)
        → s.threads t ≡ releasing answer
        → (o : Option ℕ) → s.ongoing ≡ o
        → IsExclusive (release s t answer o)
    by_ongoing_out answer p none o = absurd (v.taken t (ap inside p) o)
    by_ongoing_out answer p (some channel) o = leaves-IsExclusive s t channel answer p o v

    by_error : s.threads t ≡ unmounting → (o : Option Bytes) → IsExclusive (unmount s t o)
    by_error p none =
        stays-IsExclusive s false t (releasing (true, none)) (sym (ap inside p)) refl v
    by_error p (some text) =
        stays-IsExclusive s s.is_mounted t (releasing (false, some text)) (sym (ap inside p)) refl v

    by : (pc : Pc) → s.threads t ≡ pc → IsExclusive (step_from s t e pc)
    by entering p = by_ongoing_in p s.ongoing refl
    by (waiting channel) p = elim (Bool-cases (s.closes channel == 0)) [
      | inl h ↦ rw h v
      | inr h ↦
          rw h
            (stays-IsExclusive s s.is_mounted t (returned (false, none)) (sym (ap inside p)) refl v)
    ]
    by checking p = elim (Bool-cases s.is_mounted) [
      | inl h ↦ rw h (stays-IsExclusive s true t unmounting (sym (ap inside p)) refl v)
      | inr h ↦
          rw h (stays-IsExclusive s false t (releasing (true, none)) (sym (ap inside p)) refl v)
    ]
    by unmounting p = by_error p e
    by (releasing answer) p = by_ongoing_out answer p s.ongoing refl
    by (returned answer) p = v

-- Whatever threads enter, in whatever schedule and with whatever errors of the system call: at most
-- one of them is inside, the channel in the map is open, none is closed twice, and each thread that
-- waits does so for the channel in the map or for one that is closed.
pub run-IsExclusive :
    (s : State) (schedule : List (ℕ × Option Bytes)) → IsExclusive s → IsExclusive (run s schedule)
unfolding run
run-IsExclusive s [] v = v
run-IsExclusive s ((t, e) ∷ schedule) v =
    run-IsExclusive (step s t e) schedule (step-IsExclusive s t e v)
