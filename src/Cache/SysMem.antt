-- ===== src/Cache/SysMem.antt =====
-- pkg/cache/sysmem.go: the default ceiling of a budget. The runtime's memory limit and what the
-- operating system reports are arguments: other packages and files answer them.
use jaydb.Base.{ℕ, ◌/◌, ◌<◌, ◌≡◌, false, ◌&&◌, if◌then◌else◌, ltb, leb, arith, ℤ, pos, pos_part}
use jaydb.Cache.Budget.{is_unbounded}

-- `math.MaxInt64`
abbrev pub max_int64 : ℕ
max_int64 = 9223372036854775807

-- `512 << 20`, where nothing is known of the memory
abbrev pub fallback_memory : ℕ
fallback_memory = 536870912

unfoldable pub detect_available_memory : ℤ → ℤ → ℕ
detect_available_memory memory_limit os_memory =
    if ltb 0 (pos_part memory_limit) && ltb (pos_part memory_limit) max_int64
    then pos_part memory_limit
    else if ltb 0 (pos_part os_memory)
    then pos_part os_memory
    else fallback_memory

-- 256 MiB where no memory is reported, else half of it.
unfoldable pub default_budget_limit : ℕ → ℕ
default_budget_limit mem = if leb mem 0 then 268435456 else mem / 2

-- The memory detected is never zero.
detect_available_memory-positive :
    (memory_limit os_memory : ℤ) → 0 < detect_available_memory memory_limit os_memory
unfolding detect_available_memory
detect_available_memory-positive memory_limit os_memory = ground arith

-- The default ceiling is one: a budget with it is not unbounded, unless the memory is one byte.
default_budget_limit-bounded :
    (memory_limit os_memory : ℤ)
    → 1 < detect_available_memory memory_limit os_memory
    → is_unbounded (pos (default_budget_limit (detect_available_memory memory_limit os_memory)))
      ≡ false
unfolding default_budget_limit
default_budget_limit-bounded memory_limit os_memory h = ground arith
