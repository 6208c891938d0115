-- ===== src/Redis/Counters.antt =====
-- A server that only counts, at which the theorems on counters are applied.
use idp_sdk.Common.{ℕ, suc, String, true, pos, none, ◌==◌, if◌then◌else◌, ok, err}
use idp_sdk.Common.Failure.{plain}
use idp_sdk.Redis.{Redis}

abbrev pub counters : Redis
counters = record {
  State = String → ℕ;
  incr = λ k s. (ok (pos (suc (s k))), λ j. if k == j then suc (s j) else s j);
  expire = λ k d s. (none, s);
  ttl = λ k s. (ok (pos 30_000_000_000), s);
  ping = λ s. (none, s);
  get = λ k s. (err (plain "no values here"), s);
  put = λ k v d s. (none, s);
  put_nx = λ k v d s. (ok true, s);
  del = λ k s. (none, s);
}
