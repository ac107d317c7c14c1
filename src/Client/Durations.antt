-- ===== src/Client/Durations.antt =====
-- The durations that runner/grpc/client.go makes of numbers of seconds.
use ojs_conformance.Common.{◌*◌, ◌+◌, ℤ, pos, negsuc}

-- The nanoseconds of a number of seconds.
abbrev pub billions : ℤ → ℤ
billions (pos n) = pos (1000000000 * n)
billions (negsuc n) = negsuc (1000000000 * n + 999999999)
