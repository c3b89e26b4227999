-- ===== src/Channels/Job/Order.antt =====
-- The order of jobs is strict, and it is total where it does not raise.
use others_addons.Base.{ℕ, ◌≤◌, ◌≡◌, ◌≢◌, ◌⊎◌, true, false, none, some, arith}
use others_addons.Channels.Job.{SortingKey, Jobs, lt_ignoring_eta, lt?, before, eta_of}
use others_addons.Channels.PriorityQueue.Order.{IsStrict}

pub lt_ignoring_eta_irrefl : (a : SortingKey) → lt_ignoring_eta a a ≡ false
unfolding lt_ignoring_eta
lt_ignoring_eta_irrefl a = ground arith

pub lt_ignoring_eta_trans :
    (a b c : SortingKey)
    → lt_ignoring_eta a b ≡ true
    → lt_ignoring_eta b c ≡ true
    → lt_ignoring_eta a c ≡ true
unfolding lt_ignoring_eta
lt_ignoring_eta_trans a b c p q = ground arith

-- No job is before itself, and `before` is transitive.
pub before-IsStrict : (jobs : Jobs) → IsStrict (before jobs)
unfolding before
before-IsStrict jobs = record {
  irreflexive = λ i. ground (arith, lt_ignoring_eta_irrefl (jobs i).key);
  transitive =
      λ i j k p q. ground (arith, lt_ignoring_eta_trans (jobs i).key (jobs j).key (jobs k).key);
}

-- The comparison raises exactly if one job has an eta and the other has none.
pub lt?-eq-none :
    (a b : SortingKey)
    → lt? a b ≡ none
    → ((a.eta ≡ none) × (b.eta ≢ none)) ⊎ ((a.eta ≢ none) × (b.eta ≡ none))
unfolding lt?
lt?-eq-none a b e = ground arith

pub lt?-total :
    (a b : SortingKey)
    → lt? a b ≡ some false
    → lt? b a ≡ some false
    → (a.eta ≡ b.eta)
      × (a.priority ≡ b.priority)
      × (a.date_created ≡ b.date_created)
      × (a.seq ≡ b.seq)
unfolding lt? lt_ignoring_eta
lt?-total a b p q = ground arith

-- Among jobs with an eta, none that is later comes before an earlier one.
pub not-before-eta :
    (jobs : Jobs) (i j : ℕ)
    → (jobs i).key.eta ≢ none
    → (jobs j).key.eta ≢ none
    → before jobs i j ≡ false
    → eta_of (jobs j) ≤ eta_of (jobs i)
unfolding before
not-before-eta jobs i j hi hj e = ground arith

-- Among jobs without eta, `before` is the order that ignores the eta.
pub before_no_eta :
    (jobs : Jobs) (i j : ℕ)
    → (jobs i).key.eta ≡ none
    → (jobs j).key.eta ≡ none
    → before jobs i j ≡ lt_ignoring_eta (jobs i).key (jobs j).key
unfolding before
before_no_eta jobs i j hi hj = ground arith

-- The order of two jobs reads their entries only.
pub before-congr :
    (jobs jobs' : Jobs) (i j : ℕ)
    → jobs' i ≡ jobs i
    → jobs' j ≡ jobs j
    → before jobs' i j ≡ before jobs i j
unfolding before
before-congr jobs jobs' i j p q = rw (p, q)
