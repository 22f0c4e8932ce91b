-- ===== src/Copyrpc/Endpoint/Credit.antt =====
-- copyrpc/src/rc.rs: what `compute_credit_grant` promises.
use locasta.Base.{ℕ, ◌+◌, ◌-◌, ◌*◌, ◌/◌, ◌%◌, ◌^◌, ◌≤◌, ◌<◌, ◌≡◌, ◌⊎◌, arith, some, min}
use locasta.Base.Bits.{bit_and_field}
use locasta.Copyrpc.Endpoint.{
  Endpoint, RemoteRingInfo, align_down, in_flight, grant_within, compute_credit_grant,
}

pub align_down_lem :
    (n : ℕ) → n < 2 ^ 64 → (align_down n % 32 ≡ 0) × (align_down n ≤ n) × (n < align_down n + 32)
unfolding align_down
align_down_lem n h = omega (arith, bit_and_field 5 59 n)

module _ {S : Type 0} (e : Endpoint S) (r : RemoteRingInfo) where
  -- A grant is a multiple of 32. Where something is granted, twice the new reservation still fits
  -- beside what is in flight, and the new reservation is within the policy. The rest of that room
  -- is less than 32 when nothing more is granted.
  pub compute_credit_grant_lem :
      e.remote_recv_ring ≡ some r
      → r.size < 2 ^ 64
      → let grant = compute_credit_grant e in
        (grant % 32 ≡ 0)
        × ((grant ≡ 0)
            ⊎ ((in_flight e + 2 * (e.resp_reservation + grant) ≤ r.size)
                × (e.resp_reservation + grant ≤ e.max_resp_reservation)))
        × (min ((r.size - in_flight e) / 2) e.max_resp_reservation
            < e.resp_reservation + grant + 32)
  unfolding compute_credit_grant grant_within
  compute_credit_grant_lem at small = rw at (
      ground (
        arith,
        align_down_lem
            (min ((r.size - in_flight e) / 2 - e.resp_reservation)
              (e.max_resp_reservation - e.resp_reservation))
            (omega arith),
      ))
