-- ===== src/Base/Text.antt =====
-- Texts: what the program uses of Go's strings package.
use Prim.Native.Nat.{◌-◌}
use Prim.Native.String.{String, slice, len}
use ad_guard_dns.Base.Tests.{if◌then◌else◌}
use ad_guard_dns.Base.Equality.{◌==◌, string_eq}

-- `strings.TrimSuffix(s, ".")`
abbrev pub trim_dot : String → String
trim_dot s = if slice s (len s - 1) (len s) == "." then slice s 0 (len s - 1) else s
