-- ===== src/Store/Redis/Jobs/Decoded.antt =====
-- internal/store/redis/redis.go: the job that a hash is read as.
use Prim.Native.String.{◌++◌ as str_append}
use text.Mathlib.TextLemmas.{append_cancel_left}
use j_harness.Base.{
  String, none, some, [], ◌∷◌, ◌≡◌, inl, inr, refl, sym, ap, subst, ◌∙◌, ok, ◌==◌, eq_iff, eq_refl,
  arith, Map, lookup, insert, lookup-insert, Bool-cases,
}
use j_harness.Model.{JobStatus, unset, pending, running, completed, failed, canceled, skipped}
use j_harness.Store.Redis.Fields.{
  Codec, Times, status_text, status_of, pairs, hash_to_map, field, job_from_fields, found, decoded,
}
use j_harness.Store.Redis.Jobs.{Server, job_key, get_job}
use j_harness.Store.Redis.Jobs.Contract.{flat, IsHash, Same, ServerLaws}

pub status_of-text : (status : JobStatus) → status_of (status_text status) ≡ status
unfolding status_of
status_of-text unset = refl
status_of-text pending = refl
status_of-text running = refl
status_of-text completed = refl
status_of-text failed = refl
status_of-text canceled = refl
status_of-text skipped = refl

pub job_key-eq : (pfx a b : String) → (job_key pfx a == job_key pfx b) ≡ (a == b)
job_key-eq pfx a b = elim (Bool-cases (a == b)) [
  | inl same ↦
      let e : a ≡ b = ground (arith, same, eq_iff a b) in
      subst (λ c. (job_key pfx a == job_key pfx c) ≡ (a == c)) e
        (eq_refl (job_key pfx a) ∙ sym (eq_refl a))
  | inr other ↦ elim (Bool-cases (job_key pfx a == job_key pfx b)) [
    | inl same ↦
        let e : job_key pfx a ≡ job_key pfx b =
          ground (arith, same, eq_iff (job_key pfx a) (job_key pfx b)) in
        let e' =
          append_cancel_left "job:" a b
            (append_cancel_left pfx (str_append "job:" a) (str_append "job:" b) e) in
        ground (arith, other, e', eq_iff a b)
    | inr different ↦ different ∙ sym other
  ]
]

lookup-pairs :
    (m acc : Map String) (name : String)
    → IsHash m
    → lookup name (pairs (flat m) acc)
      ≡ elim (lookup name m) [ none ↦ lookup name acc | some v ↦ some v ]
unfolding lookup pairs flat IsHash
lookup-pairs [] acc name h = refl
lookup-pairs ((at, val) ∷ m) acc name h = ground (
  arith,
  lookup-pairs m (insert at val acc) name h.1,
  lookup-insert at name val acc,
  eq_iff at name,
  h.0,
)

pairs-Same : (m : Map String) → IsHash m → Same (pairs (flat m) []) m
unfolding lookup
pairs-Same m h name = ground (arith, lookup-pairs m [] name h)

job_from_fields-Same : (m m' : Map String) → Same m m' → job_from_fields m ≡ job_from_fields m'
unfolding job_from_fields field
job_from_fields-Same m m' h =
    rw (h "session_id", h "kind", h "target_id", h "status", h "input", h "result", h "error") refl

pub found-Same : (m m' : Map String) → Same m m' → found (ok m) ≡ found (ok m')
unfolding lookup found
found-Same [] [] h = refl
found-Same [] ((at, val) ∷ m') h = ground (arith, h at, eq_refl at)
found-Same ((at, val) ∷ m) [] h = ground (arith, h at, eq_refl at)
found-Same (f ∷ m) (f' ∷ m') h = ap ok (job_from_fields-Same (f ∷ m) (f' ∷ m') h)

-- A hash with a field is found.
pub found-field :
    (m : Map String) (name val : String)
    → lookup name m ≡ some val
    → found (ok m) ≡ ok (job_from_fields m)
unfolding lookup found
found-field [] name val h = ground (arith, h)
found-field (f ∷ m) name val h = refl

module _ {S : Type 0} {srv : Server S} {hash : S → String → Map String} (laws : ServerLaws srv hash)
    (codec : Codec) (times : Times) (pfx : String) where
  pub get_job-hash :
      (id : String) (s : S)
      → get_job srv codec times pfx id s ≡ found (ok (hash s (job_key pfx id)))
  unfolding get_job decoded hash_to_map
  get_job-hash id s =
      let h = hash s (job_key pfx id) in
      rw (laws.hgetall s (job_key pfx id))
        (found-Same (pairs (flat h) []) h (pairs-Same h (laws.is_hash s (job_key pfx id))))

  -- Where a hash is unchanged, so is the job.
  pub get_job-Same :
      (id : String) (s t : S)
      → Same (hash t (job_key pfx id)) (hash s (job_key pfx id))
      → get_job srv codec times pfx id t ≡ get_job srv codec times pfx id s
  get_job-Same id s t h =
      get_job-hash id t
      ∙ found-Same (hash t (job_key pfx id)) (hash s (job_key pfx id)) h
      ∙ sym (get_job-hash id s)
