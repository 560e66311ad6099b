-- ===== src/Utils/Placement.antt =====
-- Where a resolved output directory lies.
use hector_recorder.Common.{
  ℕ, zero, suc, ◌<◌, String, true, false, ◌≡◌, ◌≢◌, is_empty, eq_iff, arith, ◌⊎◌,
}
use hector_recorder.Utils.Output.{FileSystem, out_of_fuel, is_bag_at, climb, find_rosbag_ancestor}

-- `q` is `p`, or lies above it.
pub data Above (fs : FileSystem) (q : String) : String → Type 0 where
  same : {p : String} → p ≡ q → Above fs q p
  up :
      (p : String)
      → is_empty (fs.parent_path p) ≡ false
      → Above fs q (fs.parent_path p)
      → Above fs q p

-- Each path has a parent that is empty, itself, or less deep.
abbrev pub IsFounded : FileSystem → Type 0
IsFounded fs =
    (p : String)
    → (is_empty (fs.parent_path p) ≡ true)
      ⊎ (fs.parent_path p ≡ p)
      ⊎ (fs.depth (fs.parent_path p) < fs.depth p)

climb_returns :
    (fs : FileSystem)
    → IsFounded fs
    → (fuel : ℕ) (p : String) → fs.depth p < fuel
    → climb fs fuel p ≢ out_of_fuel
unfolding climb
climb_returns fs founded zero p h = absurd (omega arith)
climb_returns fs founded (suc fuel) p h = ground (
  arith,
  founded p,
  eq_iff (fs.parent_path p) p,
  climb_returns fs founded fuel (fs.parent_path p),
)

-- The search for a bag above a directory ends, on the fuel that it is given, if each path has a parent
-- that is empty, itself or less deep.
pub find_rosbag_ancestor_returns :
    (fs : FileSystem) → IsFounded fs → (dir : String) → find_rosbag_ancestor fs dir ≢ out_of_fuel
unfolding find_rosbag_ancestor
find_rosbag_ancestor_returns fs founded dir =
    ground (arith, climb_returns fs founded (suc (fs.depth dir)) dir (omega arith))

-- What a target is that the last checks let through.
abbrev IsFree : FileSystem → String → Type 0
IsFree fs target =
    (fs.exists target ≡ false)
    × ((q : String)
        → is_empty (fs.parent_path target) ≡ false
        → Above fs q (fs.parent_path target)
        → is_bag_at fs q ≡ false)
