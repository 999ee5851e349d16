-- ===== src/Ingest/Interop/Secrets.antt =====
-- Which values `reject_secret_keys` of src/dfir_workbench/interop.py accepts.
use dfir_evidence_workbench.Base.{◌≡◌, ◌↔◌, refl, String, false, ℕ, suc}
use dfir_evidence_workbench.Base.Strings.{◌<>◌, decimal}
use dfir_evidence_workbench.Base.Json.{
  Json, null, boolean, integer, float, str, array, object, Items, nil, cons, Fields, end, field,
}
use dfir_evidence_workbench.Base.Result.{ok, ◌>>◌, raise_if-ok, >>=-eq-ok}
use dfir_evidence_workbench.Ingest.Interop.{
  is_secret_key, reject_secret_keys, reject_items, reject_fields, forbidden,
}

-- The keys that stand anywhere in a value, at whatever depth.
mutual
  pub data Occurs (k : String) : Json → Type 0 where
    in_array : {vs : Items} → OccursIn k vs → Occurs k (array vs)
    in_object : {fs : Fields} → OccursAmong k fs → Occurs k (object fs)

  pub data OccursIn (k : String) : Items → Type 0 where
    first : {v : Json} {vs : Items} → Occurs k v → OccursIn k (cons v vs)
    later : {v : Json} {vs : Items} → OccursIn k vs → OccursIn k (cons v vs)

  pub data OccursAmong (k : String) : Fields → Type 0 where
    here : {v : Json} {fs : Fields} → OccursAmong k (field k v fs)
    under : {j : String} {v : Json} {fs : Fields} → Occurs k v → OccursAmong k (field j v fs)
    other : {j : String} {v : Json} {fs : Fields} → OccursAmong k fs → OccursAmong k (field j v fs)

-- No key at any depth looks like a credential.
abbrev pub HasNoSecret : Json → Type 0
HasNoSecret v = (k : String) → Occurs k v → is_secret_key k ≡ false

-- What a `dict` that is accepted passed: its first key, the value there, and the rest.
parts :
    (path j : String) (v : Json) (fs : Fields)
    → reject_fields path (field j v fs) ≡ ok tt
    → (is_secret_key j ≡ false)
      × (reject_secret_keys (path <> "." <> j) v ≡ ok tt)
      × (reject_fields path fs ≡ ok tt)
unfolding reject_fields
parts path j v fs h =
    let value_of = reject_secret_keys (path <> "." <> j) v in
    let t =
      raise_if-ok (is_secret_key j) (forbidden path j) (value_of >> reject_fields path fs) h in
    let s = >>=-eq-ok value_of (λ done. reject_fields path fs) (t.1) in (t.0, s.1, s.2)

item_parts :
    (path : String) (n : ℕ) (v : Json) (vs : Items)
    → reject_items path n (cons v vs) ≡ ok tt
    → (reject_secret_keys (path <> "[" <> decimal n <> "]") v ≡ ok tt)
      × (reject_items path (suc n) vs ≡ ok tt)
unfolding reject_items
item_parts path n v vs h =
    let s =
      >>=-eq-ok (reject_secret_keys (path <> "[" <> decimal n <> "]") v)
        (λ done. reject_items path (suc n) vs) h in
    (s.1, s.2)

mutual
  unfolding reject_secret_keys

  sound :
      (path : String) (v : Json) (k : String)
      → reject_secret_keys path v ≡ ok tt
      → Occurs k v
      → is_secret_key k ≡ false
  sound path null k h o = elim o [ ]
  sound path (boolean b) k h o = elim o [ ]
  sound path (integer n) k h o = elim o [ ]
  sound path (float f) k h o = elim o [ ]
  sound path (str s) k h o = elim o [ ]
  sound path (array vs) k h (in_array o) = sound_items path 0 vs k h o
  sound path (object fs) k h (in_object o) = sound_fields path fs k h o

  sound_items :
      (path : String) (n : ℕ) (vs : Items) (k : String)
      → reject_items path n vs ≡ ok tt
      → OccursIn k vs
      → is_secret_key k ≡ false
  sound_items path n nil k h o = elim o [ ]
  sound_items path n (cons v vs) k h (first o) =
      sound (path <> "[" <> decimal n <> "]") v k ((item_parts path n v vs h).0) o
  sound_items path n (cons v vs) k h (later o) =
      sound_items path (suc n) vs k ((item_parts path n v vs h).1) o

  sound_fields :
      (path : String) (fs : Fields) (k : String)
      → reject_fields path fs ≡ ok tt
      → OccursAmong k fs
      → is_secret_key k ≡ false
  sound_fields path end k h o = elim o [ ]
  sound_fields path (field j v fs) k h here = (parts path k v fs h).0
  sound_fields path (field j v fs) k h (under o) =
      sound (path <> "." <> j) v k ((parts path j v fs h).1) o
  sound_fields path (field j v fs) k h (other o) =
      sound_fields path fs k ((parts path j v fs h).2) o

mutual
  unfolding reject_secret_keys

  complete :
      (path : String) (v : Json)
      → ((k : String) → Occurs k v → is_secret_key k ≡ false)
      → reject_secret_keys path v ≡ ok tt
  complete path null h = refl
  complete path (boolean b) h = refl
  complete path (integer n) h = refl
  complete path (float f) h = refl
  complete path (str s) h = refl
  complete path (array vs) h = complete_items path 0 vs (λ k o. h k (in_array o))
  complete path (object fs) h = complete_fields path fs (λ k o. h k (in_object o))

  complete_items :
      (path : String) (n : ℕ) (vs : Items)
      → ((k : String) → OccursIn k vs → is_secret_key k ≡ false)
      → reject_items path n vs ≡ ok tt
  complete_items path n nil h = refl
  complete_items path n (cons v vs) h =
      rw (complete (path <> "[" <> decimal n <> "]") v (λ k o. h k (first o)))
        (complete_items path (suc n) vs (λ k o. h k (later o)))

  complete_fields :
      (path : String) (fs : Fields)
      → ((k : String) → OccursAmong k fs → is_secret_key k ≡ false)
      → reject_fields path fs ≡ ok tt
  complete_fields path end h = refl
  complete_fields path (field j v fs) h =
      rw (h j here, complete (path <> "." <> j) v (λ k o. h k (under o)))
        (complete_fields path fs (λ k o. h k (other o)))

-- A value is accepted exactly if no key at any depth of it looks like a credential, whatever the
-- path that is reported.
pub reject_secret_keys-ok_iff :
    (path : String) (v : Json) → (reject_secret_keys path v ≡ ok tt) ↔ HasNoSecret v
reject_secret_keys-ok_iff path v = (λ h k o. sound path v k h o, λ h. complete path v h)
