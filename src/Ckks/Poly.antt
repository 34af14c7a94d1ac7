-- ===== src/Ckks/Poly.antt =====
-- src/CKKS/RNSPoly.cpp: the part of an RNS polynomial that the operations on ciphertexts look at.
use fideslib.Prelude.{ℕ, suc, ◌-◌, Bool, false, ◌&&◌, ◌||◌, ltb, leb, ◌==◌, if◌then◌else◌}
use fideslib.Ckks.Result.{Result, ok, ◌>>◌}
use fideslib.Ckks.Context.{Context, assert, is_ext}

pub record Poly : Type 0 where
  -- level + 1
  pub towers : ℕ
  pub mod_up : Bool

-- RNSPoly(cc) with dropToLevel(-1), as getAuxilarPoly's users leave it
abbrev pub empty : Poly
empty = record { towers = 0; mod_up = false }

unfoldable pub drop_to_level : ℕ → Poly → Poly
drop_to_level t p = if ltb t p.towers then record p { towers = t } else p

unfoldable pub grow : ℕ → Poly → Poly
grow t p = if leb t p.towers then p else record p { towers = t }

-- dropToLevel, grow, copy of the limbs, SetModUp
unfoldable pub copy : Poly → Poly → Poly
unfolding drop_to_level grow
copy src p = record (grow src.towers (drop_to_level src.towers p)) { mod_up = src.mod_up }

-- level -= 1 + (level == L + 1 && FLEXIBLEAUTOEXT), on each of the two polynomials
unfoldable pub rescale_double : Context → Poly → Poly
rescale_double cc p = record p {
  towers = p.towers - (if p.towers == suc cc.top && is_ext cc.technique then 2 else 1);
}

module _ (cc : Context) where
  unfoldable pub add : Poly → Poly → Result Poly
  add p q = do assert cc (leb p.towers q.towers); ok (record p { mod_up = p.mod_up || q.mod_up })

  unfoldable pub sub : Poly → Poly → Result Poly
  sub p q = do assert cc (leb p.towers q.towers); ok p

  -- The rows whose modulus is the chain's prime set the level; a single other row raises it.
  unfoldable pub load : ℕ → ℕ → Poly → Result Poly
  unfolding drop_to_level grow
  load limbs specials p = do
    assert cc (leb limbs cc.top)
    ok (record (drop_to_level limbs (grow limbs p)) {
      towers = if specials == 1 then suc limbs else limbs;
    })
