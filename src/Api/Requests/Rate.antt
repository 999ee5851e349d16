-- ===== src/Api/Requests/Rate.antt =====
-- How many requests an analyst can begin within an hour, by `_begin_ai_request` and `_end_ai_request` of
-- src/dfir_workbench/api.py.
use mathlib.Core.Path.{subst}
use dfir_evidence_workbench.Base.{
  ℕ, ◌+◌, ◌-◌, ◌≤◌, ◌<◌, ◌≡◌, refl, sym, Bool, true, false, ◌&&◌, List, [], ◌∷◌, ◌++◌, any, leb,
  ltb, length, arith, Bool-cases, inl, inr, if◌then◌else◌,
}
use dfir_evidence_workbench.Base.Dict.{get, put, get-put, get-put_self}
use dfir_evidence_workbench.Api.Requests.{
  Key, same_key, same_key_iff, key_eq, Asking, rate_window, rate_limit, drop_old, or_empty, admit,
  begin_ai_request, end_ai_request,
}

-- The calls of a thread for an analyst: it asks for a slot at a time, or frees its slot.
pub data Event : Type 0 where
  begins : ℕ → Key → Event
  ends : Key → Event

-- The times do not decrease.
abbrev pub IsOrdered : ℕ → List Event → Type 0
IsOrdered from [] = Unit {0}
IsOrdered from (begins now k ∷ es) = (from ≤ now) × IsOrdered now es
IsOrdered from (ends k ∷ es) = IsOrdered from es

abbrev pub added : Bool → ℕ → List ℕ
added true now = now ∷ []
added false now = []

-- The times at which an analyst got a slot.
unfoldable pub begun_at : Key → List Event → Asking → List ℕ
begun_at k [] s = []
begun_at k (begins now j ∷ es) s =
    added (same_key j k && (begin_ai_request now j s).0) now
    ++ begun_at k es ((begin_ai_request now j s).1)
begun_at k (ends j ∷ es) s = begun_at k es (end_ai_request j s)

-- Within the window that ends at `t`.
abbrev pub in_window : ℕ → ℕ → Bool
in_window t a = leb a t && ltb (t - a) rate_window

unfoldable pub count : ℕ → List ℕ → ℕ
count t [] = 0
count t (a ∷ l) = (if in_window t a then 1 else 0) + count t l

count-append : (t : ℕ) (l m : List ℕ) → count t (l ++ m) ≡ count t l + count t m
unfolding count
count-append t [] m = omega arith
count-append t (a ∷ l) m = omega (arith, count-append t l m)

count-le-length : (t : ℕ) (l : List ℕ) → count t l ≤ length l
unfolding count
count-le-length t [] = omega arith
count-le-length t (a ∷ l) = ground (arith, count-le-length t l)

count-drop_old : (now t : ℕ) (l : List ℕ) → now ≤ t → count t (drop_old now l) ≡ count t l
unfolding count drop_old
count-drop_old now t [] h = refl
count-drop_old now t (a ∷ l) h = ground (arith, count-drop_old now t l h)

abbrev stamps : Key → Asking → List ℕ
stamps k s = or_empty (get s.rate k)

-- `past t` slots were got within the window that ends at `t`.
record IsLimited (from : ℕ) (past : ℕ → ℕ) (ts : List ℕ) : Type 0 where
  bounded : (t : ℕ) → past t ≤ rate_limit
  remembered : (t : ℕ) → from ≤ t → past t ≤ count t ts

in_window-le : (t a : ℕ) → in_window t a ≡ true → a ≤ t
in_window-le t a h = ground arith

room_lem : (n : ℕ) → leb rate_limit n ≡ false → n < rate_limit
room_lem n h = ground arith

-- A refusal keeps what is remembered, but for what is too old.
refused-IsLimited :
    (from now : ℕ) (past : ℕ → ℕ) (ts : List ℕ)
    → from ≤ now
    → IsLimited from past ts
    → IsLimited now (λ t. past t + count t []) (drop_old now ts)
unfolding count
refused-IsLimited from now past ts le h = record {
  bounded = λ t. omega (arith, h.bounded t);
  remembered =
      λ t later. omega (arith, h.remembered t (omega arith), count-drop_old now t ts later);
}

granted-IsLimited :
    (from now : ℕ) (past : ℕ → ℕ) (ts : List ℕ)
    → from ≤ now
    → leb rate_limit (length (drop_old now ts)) ≡ false
    → IsLimited from past ts
    → IsLimited now (λ t. past t + count t (now ∷ [])) (drop_old now ts ++ (now ∷ []))
unfolding count
granted-IsLimited from now past ts le room h = record {
  bounded = λ t. elim (Bool-cases (in_window t now)) [
    | inl e ↦ rw e (
        omega (
          arith,
          h.remembered t (omega (arith, in_window-le t now e)),
          count-drop_old now t ts (in_window-le t now e),
          count-le-length t (drop_old now ts),
          room_lem (length (drop_old now ts)) room,
        ))
    | inr e ↦ rw e (omega (arith, h.bounded t))
  ];
  remembered = λ t later. omega (
    arith,
    h.remembered t (omega arith),
    count-drop_old now t ts later,
    count-append t (drop_old now ts) (now ∷ []),
  );
}

admit-IsLimited :
    (from now : ℕ) (k : Key) (past : ℕ → ℕ) (ts : List ℕ) (s : Asking)
    → from ≤ now
    → IsLimited from past ts
    → IsLimited now
        (λ t. past t + count t (added ((admit now k (drop_old now ts) s).0) now))
        (stamps k ((admit now k (drop_old now ts) s).1))
admit-IsLimited from now k past ts s le h = at (leb rate_limit (length (drop_old now ts))) refl
  where
    old : Asking
    old = record s { rate = put s.rate k (drop_old now ts) }

    new : Asking
    new = record s {
      rate = put s.rate k (drop_old now ts ++ (now ∷ []));
      in_flight = k ∷ s.in_flight;
    }

    pick : Bool → Bool × Asking
    pick b = if b then (false, old) else (true, new)

    at :
        (b : Bool)
        → leb rate_limit (length (drop_old now ts)) ≡ b
        → IsLimited now (λ t. past t + count t (added ((pick b).0) now)) (stamps k ((pick b).1))
    at true e =
        rw (get-put_self s.rate k (drop_old now ts)) (refused-IsLimited from now past ts le h)
    at false e =
        rw (get-put_self s.rate k (drop_old now ts ++ (now ∷ [])))
          (granted-IsLimited from now past ts le e h)

-- Later the same is remembered.
IsLimited-later :
    (from now : ℕ) (past : ℕ → ℕ) (ts : List ℕ)
    → from ≤ now
    → IsLimited from past ts
    → IsLimited now (λ t. past t + count t []) ts
unfolding count
IsLimited-later from now past ts le h = record {
  bounded = λ t. omega (arith, h.bounded t);
  remembered = λ t later. omega (arith, h.remembered t (omega arith));
}

-- A slot that an analyst asks for.
begin-IsLimited_own :
    (from now : ℕ) (k : Key) (past : ℕ → ℕ) (s : Asking)
    → from ≤ now
    → IsLimited from past (stamps k s)
    → IsLimited now
        (λ t. past t + count t (added ((begin_ai_request now k s).0) now))
        (stamps k ((begin_ai_request now k s).1))
unfolding begin_ai_request
begin-IsLimited_own from now k past s le h = elim (Bool-cases (any (same_key k) s.in_flight)) [
  | inl e ↦ rw e (IsLimited-later from now past (stamps k s) le h)
  | inr e ↦ rw e (admit-IsLimited from now k past (stamps k s) s le h)
]

-- A slot that another analyst asks for.
begin-stamps_other :
    (now : ℕ) (j k : Key) (s : Asking)
    → same_key j k ≡ false
    → stamps k ((begin_ai_request now j s).1) ≡ stamps k s
unfolding begin_ai_request
begin-stamps_other now j k s other = ground (
  arith,
  get-put s.rate j k (drop_old now (stamps j s)),
  get-put s.rate j k (drop_old now (stamps j s) ++ (now ∷ [])),
)

begin-IsLimited :
    (from now : ℕ) (j k : Key) (past : ℕ → ℕ) (s : Asking)
    → from ≤ now
    → IsLimited from past (stamps k s)
    → IsLimited now
        (λ t. past t + count t (added (same_key j k && (begin_ai_request now j s).0) now))
        (stamps k ((begin_ai_request now j s).1))
begin-IsLimited from now j k past s le h = elim (Bool-cases (same_key j k)) [
  | inl e ↦ rw e (
      subst
        (λ i.
          IsLimited now (λ t. past t + count t (added ((begin_ai_request now i s).0) now))
            (stamps k ((begin_ai_request now i s).1)))
        (sym ((same_key_iff j k).0 e)) (begin-IsLimited_own from now k past s le h))
  | inr e ↦ rw (e, begin-stamps_other now j k s e) (IsLimited-later from now past (stamps k s) le h)
]

begun_at-IsLimited :
    (k : Key) (es : List Event) (from : ℕ) (past : ℕ → ℕ) (s : Asking)
    → IsOrdered from es
    → IsLimited from past (stamps k s)
    → (t : ℕ) → past t + count t (begun_at k es s) ≤ rate_limit
unfolding begun_at count end_ai_request
begun_at-IsLimited k [] from past s o h t = omega (arith, h.bounded t)
begun_at-IsLimited k (ends j ∷ es) from past s o h t =
    begun_at-IsLimited k es from past (end_ai_request j s) o h t
begun_at-IsLimited k (begins now j ∷ es) from past s o h t =
    let got = added (same_key j k && (begin_ai_request now j s).0) now in
    let s' = (begin_ai_request now j s).1 in
    omega (
      arith,
      begun_at-IsLimited k es now (λ u. past u + count u got) s' (o.1)
          (begin-IsLimited from now j k past s (o.0) h) t,
      count-append t got (begun_at k es s'),
    )

-- However the calls of the analysts interleave, if their times do not decrease, an analyst gets at most
-- 20 slots within any window of 3600 seconds, whether or not they are freed.
pub begun_at_limited :
    (k : Key) (es : List Event) (s : Asking) (from t : ℕ)
    → IsOrdered from es
    → s.rate ≡ []
    → count t (begun_at k es s) ≤ 20
unfolding count
begun_at_limited k es s from t o none_yet =
    let unused : IsLimited from (λ u. 0) (stamps k s) = record {
      bounded = λ u. omega arith;
      remembered = λ u later. omega arith;
    } in
    omega (arith, begun_at-IsLimited k es from (λ u. 0) s o unused t)
