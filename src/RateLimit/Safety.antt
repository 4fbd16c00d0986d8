-- ===== src/RateLimit/Safety.antt =====
-- internal/ratelimit/ratelimit.go: the slots of a semaphore bound the calls that are in a backend, and none of them is lost.
use Prim.Native.String.{◌++◌ as str_append}
use j_harness.Base.{
  ℕ, zero, suc, ◌+◌, ◌-◌, ◌≤◌, ◌<◌, true, false, Option, none, some, List, [], ◌∷◌, ◌≡◌, ◌≢◌, refl,
  subst, eq_iff, ltb, ltb→lt, arith, Bool-cases, Option-cases, inl, inr, if◌then◌else◌, String, ap,
  ◌↔◌,
}
use j_harness.Llm.{Context}
use j_harness.RateLimit.{
  GoEnv, Config, SemKey, same_key, Sem, new, find_sem, sem_for, arrive, take_slot, acquire, release,
  concurrency, or_number, override_or, put_first, put_rest, env_int, env_key, scanned, non_empty,
  endpoint_key,
}
use j_harness.RateLimit.System.{
  System, count, drop_one, Step, come, refused, join, give_up, enter, leave, Reach, here, next,
  idle,
}

same_key-eq : (a b : SemKey) → same_key a b ≡ true → a ≡ b
same_key-eq a b h = ground (arith, eq_iff a.endpoint b.endpoint)

same_key_refl : (a : SemKey) → same_key a a ≡ true
same_key_refl a = ground (arith, eq_iff a.endpoint a.endpoint)

find-sem_for :
    (k j : SemKey) (sems : List (SemKey × Sem))
    → find_sem j (sem_for k sems) ≡ elim (find_sem k sems) [
      | some s ↦ find_sem j sems
      | none ↦
          if same_key k j then some (record { capacity = k.size; held = 0 }) else find_sem j sems
    ]
unfolding sem_for find_sem
find-sem_for k j sems = ground arith

-- Keys that are one for `same_key` are told apart from the others alike.
same_key-swap : (i k j : SemKey) → same_key i k ≡ true → same_key i j ≡ same_key k j
same_key-swap i k j h = ground (
  arith,
  eq_iff i.endpoint k.endpoint,
  eq_iff i.endpoint j.endpoint,
  eq_iff k.endpoint j.endpoint,
)

same_key-apart :
    (i k j : SemKey) → same_key i k ≡ false → same_key i j ≡ true → same_key k j ≡ false
same_key-apart i k j n h = ground (
  arith,
  eq_iff i.endpoint k.endpoint,
  eq_iff i.endpoint j.endpoint,
  eq_iff k.endpoint j.endpoint,
)

take_slot-eq_some :
    (s s' : Sem)
    → take_slot s ≡ some s'
    → (s.held < s.capacity) × (s' ≡ record s { held = suc s.held })
take_slot-eq_some s s' h = elim (Bool-cases (ltb s.held s.capacity)) [
  | inl room ↦ (ltb→lt _ _ room, ground arith)
  | inr full ↦ absurd (ground arith)
]

-- A slot that was taken: of whose semaphore, and what the others are now.
abbrev Taken : SemKey → List (SemKey × Sem) → List (SemKey × Sem) → Type 0
Taken k sems after =
    (s : Sem) × (find_sem k sems ≡ some s)
    × (s.held < s.capacity)
    × ((j : SemKey)
        → find_sem j after
          ≡ (if same_key k j then some (record s { held = suc s.held }) else find_sem j sems))

put_first-Taken :
    (k i : SemKey) (s : Sem) (sems after : List (SemKey × Sem))
    → same_key i k ≡ true
    → put_first i sems (take_slot s) ≡ some after
    → Taken k ((i, s) ∷ sems) after
unfolding find_sem
put_first-Taken k i s sems after same h = elim (Option-cases (take_slot s)) [
  | inl full ↦ absurd (cc (rw full at h))
  | inr (s', taken) ↦
      let e = take_slot-eq_some s s' taken in
      (s, rw same refl, e.0, λ j. ground (arith, same_key-swap i k j))
]

put_rest-Taken :
    (k i : SemKey) (s : Sem) (sems after : List (SemKey × Sem))
    → same_key i k ≡ false
    → ((rest : List (SemKey × Sem)) → acquire k sems ≡ some rest → Taken k sems rest)
    → put_rest (i, s) (acquire k sems) ≡ some after
    → Taken k ((i, s) ∷ sems) after
unfolding find_sem
put_rest-Taken k i s sems after other ih h = elim (Option-cases (acquire k sems)) [
  | inl full ↦ absurd (cc (rw full at h))
  | inr (rest, taken) ↦
      let (t, found, room, others) = ih rest taken in
      let e : after ≡ (i, s) ∷ rest = cc (rw taken at h) in
      (t, rw other found, room, λ j. rw e (ground (arith, others j, same_key-apart i k j other)))
]

find-acquire :
    (k : SemKey) (sems after : List (SemKey × Sem))
    → acquire k sems ≡ some after
    → Taken k sems after
unfolding acquire find_sem
find-acquire k [] after h = cc
find-acquire k ((i, s) ∷ sems) after h = elim (Bool-cases (same_key i k)) [
  | inl same ↦ put_first-Taken k i s sems after same (rw (same, acquire) at h)
  | inr other ↦
      put_rest-Taken k i s sems after other (λ rest. find-acquire k sems rest)
        (rw (other, acquire) at h)
]

abbrev lowered : Option Sem → Option Sem
lowered none = none
lowered (some s) = some (record s { held = s.held - 1 })

find-release :
    (k j : SemKey) (sems : List (SemKey × Sem))
    → find_sem j (release k sems)
      ≡ (if same_key k j then lowered (find_sem j sems) else find_sem j sems)
unfolding release find_sem
find-release k j [] = ground arith
find-release k j ((i, s) ∷ sems) = elim (Bool-cases (same_key i k)) [
  | inl same ↦ rw same (ground (arith, same_key-swap i k j same))
  | inr other ↦ rw other (ground (arith, find-release k j sems, same_key-apart i k j other))
]

count-drop_one :
    (k j : SemKey) (ks : List SemKey)
    → 0 < count k ks
    → count j ks ≡ (if same_key k j then suc (count j (drop_one k ks)) else count j (drop_one k ks))
count-drop_one k j [] h = absurd (omega arith)
count-drop_one k j (i ∷ ks) h = elim (Bool-cases (same_key i k)) [
  | inl same ↦ rw same (ground (arith, same_key-swap i k j same))
  | inr other ↦
      let below : 0 < count k ks = ground arith in
      rw other (ground (arith, count-drop_one k j ks below))
]

-- A scan answers a number from one on.
abbrev pub IsScan : GoEnv → Type 0
IsScan env = (v : String) (n : ℕ) → env.scan_int v ≡ some n → 1 ≤ n

-- What the semaphores say about one key, in a cache and beside the calls.
abbrev Slots : List (SemKey × Sem) → List SemKey → SemKey → Type 0
Slots sems calls k =
    ((m : Sem)
      → find_sem k sems ≡ some m
      → (m.held ≡ count k calls) × (m.capacity ≡ k.size) × (m.held ≤ m.capacity))
    × (find_sem k sems ≡ none → count k calls ≡ 0)

-- What the semaphores say about the calls that run.
record Inv (s : System) : Type 0 where
  slots : (k : SemKey) → Slots s.limiter.sems s.calls k
  made : (k : SemKey) → 0 < count k s.waiting → find_sem k s.limiter.sems ≢ none
  sized : (k : SemKey) → 0 < count k s.pacing + count k s.waiting → 1 ≤ k.size
  configured : 1 ≤ s.limiter.config.default_concurrency

Inv-idle : (cfg : Config) → Inv (idle cfg)
unfolding new find_sem
Inv-idle cfg = record {
  slots = λ k. ((λ m h. cc), λ h. refl);
  made = λ k h. absurd (omega arith);
  sized = λ k h. absurd (omega arith);
  configured = ground arith;
}

or_number-pos :
    (env : GoEnv) (o : Option ℕ) (n : ℕ)
    → ((v : ℕ) → o ≡ some v → 1 ≤ v)
    → 1 ≤ n
    → 1 ≤ or_number env o n
or_number-pos env none n h k = k
or_number-pos env (some v) n h k = h v refl

override_or-pos : (env : GoEnv) (o n : ℕ) → 1 ≤ n → 1 ≤ override_or env o n
override_or-pos env zero n h = h
override_or-pos env (suc k) n h = omega arith

scanned-pos :
    (env : GoEnv) → IsScan env → (o : Option String) (n : ℕ) → scanned env o ≡ some n → 1 ≤ n
scanned-pos env scans none n h = cc
scanned-pos env scans (some v) n h = scans v n h

Slots-sem_for :
    (k j : SemKey) (sems : List (SemKey × Sem)) (calls : List SemKey)
    → Slots sems calls j
    → Slots (sem_for k sems) calls j
Slots-sem_for k j sems calls v = elim (Option-cases (find_sem k sems)) [
  | inr (s, there) ↦ rw (rw there at (find-sem_for k j sems)) v
  | inl missing ↦
      let f = rw missing at (find-sem_for k j sems) in
      elim (Bool-cases (same_key k j)) [
        | inr other ↦ rw (rw other at f) v
        | inl same ↦
            let e = same_key-eq k j same in
            let none_there : find_sem j sems ≡ none =
              subst (λ t. find_sem t sems ≡ none) e missing in
            let free = v.1 none_there in
            rw (rw same at f)
              ((λ m h. (ground (arith, free), ground arith, ground arith)), λ h. free)
      ]
]

Slots-acquire :
    (k j : SemKey) (sems after : List (SemKey × Sem)) (calls : List SemKey)
    → acquire k sems ≡ some after
    → Slots sems calls j
    → Slots after (k ∷ calls) j
Slots-acquire k j sems after calls taken v =
    let (s, found, room, others) = find-acquire k sems after taken in
    elim (Bool-cases (same_key k j)) [
      | inr other ↦
          rw (rw other at (others j))
            (rw other ((λ m h. ground (arith, v.0 m h)), λ h. ground (arith, v.1 h)))
      | inl same ↦
          let found' : find_sem j sems ≡ some s =
            subst (λ t. find_sem t sems ≡ some s) (same_key-eq k j same) found in
          let old = v.0 s found' in
          rw (rw same at (others j)) (
            rw same (
              (λ m h. (ground (arith, old.0), ground (arith, old.1), ground (arith, old.1))),
              λ h. cc,
            ))
    ]

-- The same with the semaphore itself as an argument.
abbrev SlotsOf : Option Sem → List SemKey → SemKey → Type 0
SlotsOf found calls k =
    ((m : Sem)
      → found ≡ some m
      → (m.held ≡ count k calls) × (m.capacity ≡ k.size) × (m.held ≤ m.capacity))
    × (found ≡ none → count k calls ≡ 0)

lowered-Slots :
    (o : Option Sem) (j : SemKey) (calls left : List SemKey)
    → count j calls ≡ suc (count j left)
    → SlotsOf o calls j
    → SlotsOf (lowered o) left j
lowered-Slots none j calls left fewer v = absurd (ground (arith, v.1 refl))
lowered-Slots (some s) j calls left fewer v =
    let old = v.0 s refl in
    ((λ m h. (ground (arith, old.0), ground (arith, old.1), ground (arith, old.2))), λ h. cc)

Slots-release :
    (k j : SemKey) (sems : List (SemKey × Sem)) (calls : List SemKey)
    → 0 < count k calls
    → Slots sems calls j
    → Slots (release k sems) (drop_one k calls) j
Slots-release k j sems calls running v =
    let fewer = count-drop_one k j calls running in
    elim (Bool-cases (same_key k j)) [
      | inr other ↦ rw (rw other at (find-release k j sems)) (rw (rw other at fewer) at v)
      | inl same ↦
          rw (rw same at (find-release k j sems))
            (lowered-Slots (find_sem j sems) j calls (drop_one k calls) (rw same at fewer) v)
    ]

sized-new :
    (k j : SemKey) (pacing waiting : List SemKey)
    → 1 ≤ k.size
    → ((i : SemKey) → 0 < count i pacing + count i waiting → 1 ≤ i.size)
    → 0 < count j (k ∷ pacing) + count j waiting
    → 1 ≤ j.size
sized-new k j pacing waiting pos old h = elim (Bool-cases (same_key k j)) [
  | inl same ↦ subst (λ t. 1 ≤ t.size) (same_key-eq k j same) pos
  | inr other ↦ old j (ground arith)
]

same_key-find :
    (k j : SemKey) (sems : List (SemKey × Sem))
    → same_key k j ≡ true
    → find_sem k sems ≡ find_sem j sems
same_key-find k j sems h = ap (λ t. find_sem t sems) (same_key-eq k j h)

Slots-bound :
    (sems : List (SemKey × Sem)) (calls : List SemKey) (k : SemKey)
    → Slots sems calls k
    → count k calls ≤ k.size
Slots-bound sems calls k v = elim (Option-cases (find_sem k sems)) [
  | inl missing ↦ ground (arith, v.1 missing)
  | inr (m, found) ↦ ground (arith, v.0 m found)
]

acquire-full :
    (k : SemKey) (sems : List (SemKey × Sem)) (m : Sem)
    → find_sem k sems ≡ some m
    → acquire k sems ≡ none
    → m.capacity ≤ m.held
unfolding acquire find_sem
acquire-full k [] m found h = cc
acquire-full k ((i, s) ∷ sems) m found h = ground (arith, acquire-full k sems m)

acquire-kept :
    (k : SemKey) (sems : List (SemKey × Sem)) (m : Sem)
    → find_sem k sems ≡ some m
    → m.capacity ≤ m.held
    → acquire k sems ≡ none
unfolding acquire find_sem
acquire-kept k [] m found h = refl
acquire-kept k ((i, s) ∷ sems) m found h = ground (arith, acquire-kept k sems m)

acquire-none :
    (k : SemKey) (sems : List (SemKey × Sem)) (calls : List SemKey)
    → Slots sems calls k
    → find_sem k sems ≢ none
    → acquire k sems ≡ none ↔ k.size ≤ count k calls
acquire-none k sems calls v made = elim (Option-cases (find_sem k sems)) [
  | inl missing ↦ absurd (made missing)
  | inr (m, found) ↦
      let full = acquire-full k sems m found in
      (
        (λ h. ground (arith, v.0 m found, full h)),
        λ h. acquire-kept k sems m found (ground (arith, v.0 m found)),
      )
]

module _ (env : GoEnv) (scans : IsScan env) where
  open env use {lookup_env}

  concurrency-pos :
      (default : ℕ) (key : String) (ctx : Context)
      → 1 ≤ default
      → 1 ≤ concurrency env default key ctx
  unfolding concurrency env_int
  concurrency-pos default key ctx h =
      or_number-pos env _ _
        (scanned-pos env scans
          (non_empty env (lookup_env (str_append "HARNESS_CONCURRENCY_" (env_key env key)))))
        (override_or-pos env ctx.concurrency default h)

  Step-Inv : {F : Type 0} {s t : System} → Step env F s t → Inv s → Inv t
  unfolding arrive
  Step-Inv (come ctx req s) v =
      let key = endpoint_key env req.base_url in
      let pos = concurrency-pos s.limiter.config.default_concurrency key ctx v.configured in
      record {
        slots = v.slots;
        made = v.made;
        sized = λ j h. sized-new _ j s.pacing s.waiting pos v.sized h;
        configured = v.configured;
      }
  Step-Inv (refused k s n) v = record {
    slots = v.slots;
    made = v.made;
    sized = λ j h. v.sized j (ground (arith, count-drop_one k j s.pacing n));
    configured = v.configured;
  }
  Step-Inv (join k s n) v = record {
    slots = λ j. Slots-sem_for k j s.limiter.sems s.calls (v.slots j);
    made = λ j h.
        ground (arith, find-sem_for k j s.limiter.sems, v.made j, same_key-find k j s.limiter.sems);
    sized = λ j h. v.sized j (ground (arith, count-drop_one k j s.pacing n));
    configured = v.configured;
  }
  Step-Inv (give_up k s n) v = record {
    slots = v.slots;
    made = λ j h. v.made j (ground (arith, count-drop_one k j s.waiting n));
    sized = λ j h. v.sized j (ground (arith, count-drop_one k j s.waiting n));
    configured = v.configured;
  }
  Step-Inv (enter k s sems n taken) v =
      let (m, found, room, others) = find-acquire k s.limiter.sems sems taken in
      record {
        slots = λ j. Slots-acquire k j s.limiter.sems sems s.calls taken (v.slots j);
        made = λ j h. ground (arith, others j, v.made j, count-drop_one k j s.waiting n);
        sized = λ j h. v.sized j (ground (arith, count-drop_one k j s.waiting n));
        configured = v.configured;
      }
  Step-Inv (leave k s n) v = record {
    slots = λ j. Slots-release k j s.limiter.sems s.calls n (v.slots j);
    made = λ j h. ground (arith, find-release k j s.limiter.sems, v.made j);
    sized = v.sized;
    configured = v.configured;
  }

  Reach-Inv : {F : Type 0} (cfg : Config) {s : System} → Reach env F (idle cfg) s → Inv s
  Reach-Inv cfg here = Inv-idle cfg
  Reach-Inv cfg (next r step) = Step-Inv step (Reach-Inv cfg r)

  -- In every state that calls of Complete reach from an idle limiter, in any order of their steps,
  -- at most as many of them are in the backend as the semaphore of their endpoint and concurrency
  -- has slots. It is assumed that fmt.Sscanf as read by envInt yields a number from one on.
  pub calls-Bounded :
      (F : Type 0) (cfg : Config) (s : System) (k : SemKey)
      → Reach env F (idle cfg) s
      → count k s.calls ≤ k.size
  calls-Bounded F cfg s k r =
      let v = Reach-Inv cfg r in Slots-bound s.limiter.sems s.calls k (v.slots k)

  -- In every state that is reached from an idle limiter, the semaphore of a call that waits has at
  -- least one slot, and the call is kept out exactly when as many calls of its key as there are
  -- slots are in the backend: no slot is lost, also where waits fail or are given up. The
  -- assumption on fmt.Sscanf is the same.
  pub waiting-Live :
      (F : Type 0) (cfg : Config) (s : System) (k : SemKey)
      → Reach env F (idle cfg) s
      → 0 < count k s.waiting
      → (1 ≤ k.size) × (acquire k s.limiter.sems ≡ none ↔ k.size ≤ count k s.calls)
  waiting-Live F cfg s k r w =
      let v = Reach-Inv cfg r in
      (v.sized k (omega arith), acquire-none k s.limiter.sems s.calls (v.slots k) (v.made k w))
