-- ===== src/Channels/Channel/Capacity.antt =====
-- The capacity of a channel (queue_job/jobrunner/channels.py, `has_capacity`).
use others_addons.Base.{
  ℕ, zero, suc, ◌≤◌, ◌≡◌, true, List, Option, none, some, arith, length, add as add_to_set, ℤ, pos,
  negsuc,
}
use others_addons.Channels.Job.{Jobs}
use others_addons.Channels.Channel.{Channel, has_room, has_capacity}
use others_addons.Channels.Channel.Run.{Yields, full, dry, throttled, more}

-- The running jobs are within a capacity.
abbrev pub IsWithin : Option ℤ → ℕ → Type 0
IsWithin none n = Unit {0}
IsWithin (some (pos zero)) n = Unit {0}
IsWithin (some (pos (suc c))) n = n ≤ suc c
IsWithin (some (negsuc c)) n = n ≤ 0

IsWithin-suc : (c : Option ℤ) (n : ℕ) → has_room c n ≡ true → IsWithin c (suc n)
unfolding has_room
IsWithin-suc none n h = tt
IsWithin-suc (some (pos zero)) n h = tt
IsWithin-suc (some (pos (suc c))) n h = ground arith
IsWithin-suc (some (negsuc c)) n h = absurd (cc)

IsWithin-le : (c : Option ℤ) (m n : ℕ) → m ≤ n → IsWithin c n → IsWithin c m
IsWithin-le none m n h w = tt
IsWithin-le (some (pos zero)) m n h w = tt
IsWithin-le (some (pos (suc c))) m n h w = omega arith
IsWithin-le (some (negsuc c)) m n h w = omega arith

length-add-le : (x : ℕ) (s : List ℕ) → length (add_to_set x s) ≤ suc (length s)
unfolding add_to_set
length-add-le x s = ground arith

-- A channel with room for a job is within its capacity when one more runs.
room_for_one :
    (c : Channel) (job : ℕ)
    → has_capacity c ≡ true
    → IsWithin c.capacity (length (add_to_set job c.running))
unfolding has_capacity
room_for_one c job h =
    IsWithin-le c.capacity _ _ (length-add-le job c.running)
      (IsWithin-suc c.capacity (length c.running) (ground arith))

-- No run of the loop starts more jobs than the capacity of the channel allows.
pub Yields-IsWithin :
    {now : ℕ} {jobs jobs' : Jobs} {c c' : Channel} {trace : List (Jobs × ℕ)}
    → Yields now jobs c trace jobs' c'
    → IsWithin c.capacity (length c.running)
    → IsWithin c'.capacity (length c'.running)
Yields-IsWithin (full h) w = w
Yields-IsWithin (dry h e) w = w
Yields-IsWithin (throttled {c = c} job h e t) w = room_for_one c job h
Yields-IsWithin (more {c = c} job h e t y) w = Yields-IsWithin y (room_for_one c job h)
