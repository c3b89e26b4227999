-- ===== src/Channels/Manager/Index.antt =====
-- Which jobs a `ChannelManager` knows after `notify` (queue_job/jobrunner/channels.py).
use Prim.Native.String.{String}
use others_addons.Base.{ℕ, ◌<◌, ◌≡◌, ◌≢◌, Bool, false, Option, none, some, In}
use others_addons.Jobs.State.{State}
use others_addons.Channels.Job.{ChannelJob}
use others_addons.Channels.Tree.{Tree}
use others_addons.Channels.Manager.Notify.{Manager, get_job, is_same_job}
use others_addons.Channels.Manager.Entries.{still}

-- Every entry is the uuid of the job that it refers to, and `next` refers to none.
abbrev pub IsIndexed : Manager → Type 0
IsIndexed m = (e : ℕ × ℕ) → In e m.by_uuid → ((m.store e.1).uuid ≡ e.0) × (e.1 < m.next)

-- The manager refers by its uuid to a job with these properties.
abbrev pub Knows : Manager → ChannelJob → Type 0
Knows m job = (ref : ℕ) × (get_job job.uuid m.by_uuid ≡ some ref) × (m.store ref ≡ job)

-- What a notification leaves before its references end.
data Leaves (new : ChannelJob) (m : Manager) : Option Manager → Type 0 where
  stops :
      (job : ℕ)
      → get_job new.uuid m.by_uuid ≡ some job
      → is_same_job (m.store job) new ≡ false
      → Leaves new m none
  leaves :
      (m' : Manager)
      → IsIndexed m'
      → Knows m' new
      → ((k : ℕ) → k ≢ new.uuid → get_job k m'.by_uuid ≡ get_job k m.by_uuid)
      → Leaves new m (some m')

-- What `notify` leaves when the dictionary has lost what nothing refers to any more.
pub data Notified (alive : ℕ → Bool) (new : ChannelJob) (m : Manager)
    : Option Manager → Type 0 where
  refused :
      (job : ℕ)
      → get_job new.uuid m.by_uuid ≡ some job
      → is_same_job (m.store job) new ≡ false
      → Notified alive new m none
  known :
      (m' : Manager) (ref : ℕ)
      → IsIndexed m'
      → m'.store ref ≡ new
      → get_job new.uuid m'.by_uuid ≡ still alive (some ref)
      → ((k : ℕ) → k ≢ new.uuid → get_job k m'.by_uuid ≡ still alive (get_job k m.by_uuid))
      → Notified alive new m (some m')
