-- ===== src/Channels/Manager/Entries.antt =====
-- The entries of `_jobs_by_uuid` (queue_job/jobrunner/channels.py).

use others_addons.Base.{
  ℕ, ◌≡◌, ◌≢◌, refl, sym, ap, ◌∙◌, inl, inr, Bool, List, [], ◌∷◌, Option, none, some, if◌then◌else◌,
  if_true, if_false, ◌==◌, ==_iff, Bool-cases, In, arith,
}
use others_addons.Channels.Manager.Notify.{get_job, del_job, sweep}

pub In-get_job : (uuid ref : ℕ) (l : List (ℕ × ℕ)) → get_job uuid l ≡ some ref → In (uuid, ref) l
unfolding get_job
In-get_job uuid ref [] e = absurd (cc)
In-get_job uuid ref ((k, r) ∷ l) e = elim (Bool-cases (k == uuid)) [
  | inl here ↦
      let same : some r ≡ some ref = rw here at e in
      let key : k ≡ uuid = ground (arith, ==_iff k uuid) in
      let value : r ≡ ref = cc in inl (λ i. (sym key i, sym value i))
  | inr away ↦ inr (In-get_job uuid ref l (rw away at e))
]

pub In-del_job :
    (uuid : ℕ) (l : List (ℕ × ℕ)) (e : ℕ × ℕ) → In e (del_job uuid l) → In e l × (e.0 ≢ uuid)
unfolding del_job
In-del_job uuid [] e m = absurd m
In-del_job uuid ((k, r) ∷ l) e m = elim (Bool-cases (k == uuid)) [
  | inl here ↦ let (n, d) = In-del_job uuid l e (rw here at m) in (inr n, d)
  | inr away ↦ elim (rw away at m) [
    | inl same ↦ (inl same, λ h. ground (arith, away, ==_iff k uuid, h, ap (λ x. x.0) same))
    | inr n ↦ let (n', d) = In-del_job uuid l e n in (inr n', d)
  ]
]

pub get_job-del_job :
    (k uuid : ℕ) (l : List (ℕ × ℕ)) → k ≢ uuid → get_job k (del_job uuid l) ≡ get_job k l
unfolding get_job del_job
get_job-del_job k uuid [] h = refl
get_job-del_job k uuid ((j, r) ∷ l) h = elim (Bool-cases (j == uuid)) [
  | inl here ↦ elim (Bool-cases (j == k)) [
    | inl same ↦ absurd (ground (arith, h, ==_iff j uuid, ==_iff j k))
    | inr other ↦ rw (here, del_job) (rw (other, get_job) (get_job-del_job k uuid l h))
  ]
  | inr away ↦ elim (Bool-cases (j == k)) [
    | inl same ↦ rw (away, del_job) (rw (same, get_job) refl)
    | inr other ↦ rw (away, del_job) (rw (other, get_job) (get_job-del_job k uuid l h))
  ]
]

get_job-del_same : (uuid : ℕ) (l : List (ℕ × ℕ)) → get_job uuid (del_job uuid l) ≡ none
unfolding get_job del_job
get_job-del_same uuid [] = refl
get_job-del_same uuid ((j, r) ∷ l) = elim (Bool-cases (j == uuid)) [
  | inl here ↦ rw (here, del_job) (get_job-del_same uuid l)
  | inr away ↦ rw (away, del_job) (rw (away, get_job) (get_job-del_same uuid l))
]

-- An object that is looked up in the weak dictionary.
abbrev pub still : (ℕ → Bool) → Option ℕ → Option ℕ
still alive none = none
still alive (some job) = if alive job then some job else none

pub get_job-sweep :
    (alive : ℕ → Bool) (k : ℕ) (l : List (ℕ × ℕ))
    → get_job k (sweep alive l) ≡ still alive (get_job k l)
unfolding get_job sweep
get_job-sweep alive k [] = refl
get_job-sweep alive k ((j, r) ∷ l) = elim (Bool-cases (alive r)) [
  | inl lives ↦ elim (Bool-cases (j == k)) [
    | inl same ↦ rw (lives, sweep) (rw (same, get_job) (sym (if_true _ _ _ lives)))
    | inr other ↦ rw (lives, sweep) (rw (other, get_job) (get_job-sweep alive k l))
  ]
  | inr dead ↦ elim (Bool-cases (j == k)) [
    | inl same ↦
        let key : j ≡ k = (==_iff j k).0 same in
        rw (dead, sweep)
          (rw (same, get_job)
            (ap (λ x. get_job k (del_job x (sweep alive l))) key
              ∙ get_job-del_same k (sweep alive l)
              ∙ sym (if_false _ _ _ dead)))
    | inr other ↦
        rw (dead, sweep)
          (rw (other, get_job)
            (get_job-del_job k j (sweep alive l) (λ e. ground (arith, other, e, ==_iff j k))
              ∙ get_job-sweep alive k l))
  ]
]

pub In-sweep : (alive : ℕ → Bool) (l : List (ℕ × ℕ)) (e : ℕ × ℕ) → In e (sweep alive l) → In e l
unfolding sweep
In-sweep alive [] e m = absurd m
In-sweep alive ((j, r) ∷ l) e m = elim (Bool-cases (alive r)) [
  | inl lives ↦ elim (rw lives at m) [ inl same ↦ inl same | inr n ↦ inr (In-sweep alive l e n) ]
  | inr dead ↦ inr (In-sweep alive l e (In-del_job j (sweep alive l) e (rw dead at m)).0)
]
