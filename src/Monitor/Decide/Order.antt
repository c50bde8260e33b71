-- ===== src/Monitor/Decide/Order.antt =====
-- `steadier` is a strict total order on named statistics, so the best candidate is well defined.
use clashpulse.Base.{
  ◌≡◌, String, Bool, true, false, arith, text_lt_irrefl, text_lt_trans, text_lt_total,
}
use clashpulse.Monitor.Model.{Stability}
use clashpulse.Monitor.Decide.{steadier}

pub steadier_irrefl : (a : Stability) (n : String) → steadier a n a n ≡ false
unfolding steadier
steadier_irrefl a n = ground (arith, text_lt_irrefl n)

pub steadier_trans :
    (a b c : Stability) (m n o : String)
    → steadier a m b n ≡ true
    → steadier b n c o ≡ true
    → steadier a m c o ≡ true
unfolding steadier
steadier_trans a b c m n o p q = ground (arith, text_lt_trans m n o)

pub steadier_total :
    (a b : Stability) (m n : String) → steadier a m b n ≡ false → steadier b n a m ≡ false → m ≡ n
unfolding steadier
steadier_total a b m n p q = ground (arith, text_lt_total m n)

-- A strict total order on named statistics.
pub record StrictOrder (less : Stability → String → Stability → String → Bool) : Type 0 where
  pub irreflexive : (a : Stability) (n : String) → less a n a n ≡ false
  pub transitive :
      (a b c : Stability) (m n o : String)
      → less a m b n ≡ true
      → less b n c o ≡ true
      → less a m c o ≡ true
  pub total : (a b : Stability) (m n : String) → less a m b n ≡ false → less b n a m ≡ false → m ≡ n

-- `steadier` is irreflexive and transitive, and two candidates that are not ranked have one name.
pub steadier-StrictOrder : StrictOrder steadier
steadier-StrictOrder = record {
  irreflexive = steadier_irrefl;
  transitive = steadier_trans;
  total = steadier_total;
}
