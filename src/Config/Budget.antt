-- ===== src/Config/Budget.antt =====
-- src/config.rs: the limit that a control group sets, and the buffer budget.
-- The two files are arguments: their contents, or nothing where they cannot be read.
use sturnus.Prelude.{ℕ, ◌*◌, ◌/◌, ◌^◌, String, Option, none, some, if◌then◌else◌, ltb, leb}
use sturnus.Prelude.Str.{Text, trim, parse_u64}
use sturnus.F64.{u64_max}
use sturnus.Config.{RoutingConfig}

-- `parse_cgroup_v2`
unfoldable pub parse_cgroup_v2 : Text → Option ℕ
unfolding trim parse_u64
parse_cgroup_v2 raw = parse_u64 (trim raw)

abbrev below : ℕ → Option ℕ → Option ℕ
below bound none = none
below bound (some limit) = if ltb limit bound then some limit else none

-- `parse_cgroup_v1`: its unbounded value is a rounded `i64::MAX`.
unfoldable pub parse_cgroup_v1 : Text → Option ℕ
unfolding trim parse_u64
parse_cgroup_v1 raw = below (2 ^ 60) (parse_u64 (trim raw))

-- `cgroup_memory_limit_from`
unfoldable pub cgroup_memory_limit_from : Option Text → Option Text → Option ℕ
unfolding parse_cgroup_v2 parse_cgroup_v1
cgroup_memory_limit_from (some raw) v1 = parse_cgroup_v2 raw
cgroup_memory_limit_from none (some raw) = parse_cgroup_v1 raw
cgroup_memory_limit_from none none = none

-- `saturating_mul` on 64-bit words.
abbrev saturating_mul : ℕ → ℕ → ℕ
saturating_mul a b = if leb (a * b) u64_max then a * b else u64_max

abbrev budget_from : Option ℕ → Option ℕ → ℕ → ℕ × String
budget_from (some bytes) limit max_body = (bytes, "max_buffered_bytes")
budget_from none (some limit) max_body = (limit / 2, "cgroup")
budget_from none none max_body = (saturating_mul max_body 4, "4x max_body_bytes")

-- `RoutingConfig::buffer_budget_bytes` on a 64-bit target.
unfoldable pub buffer_budget_bytes :
    {F : Type 0} → RoutingConfig F → Option Text → Option Text → ℕ × String
unfolding cgroup_memory_limit_from
buffer_budget_bytes r v2 v1 =
    budget_from r.max_buffered_bytes (cgroup_memory_limit_from v2 v1) r.max_body_bytes
