-- ===== src/Ckks/Ciphertext.antt =====
-- src/CKKS/Ciphertext.cpp: the state of a ciphertext, its metadata, its eviction to the host, and
-- the operations on one ciphertext. Each returns the new state. What the limbs hold is represented
-- by `scale`, the factor by which the encrypted message is multiplied; no operation reads it.
pub mod Offload
use fideslib.Prelude.{
  ℕ, zero, suc, ◌+◌, ◌-◌, max, ◌≡◌, Bool, true, false, not, ◌&&◌, ◌||◌, Option, some, none, ltb,
  leb, ◌==◌, if◌then◌else◌,
}
use fideslib.Ckks.Result.{Result, ok, err, ◌>>=◌, ◌>>◌, guard, assertion, out_of_range}
use fideslib.Ckks.Context.{Context, assert, is_fixed_manual, is_fixed_auto, is_flexible, is_auto}
use fideslib.Ckks.Poly.{Poly}
use fideslib.Ckks.Poly

-- RawCipherText: the number of rows, how many belong to the chain and how many do not, and the
-- metadata.
pub record Raw (F : Type 0) : Type 0 where
  pub num_res : ℕ
  pub limbs : ℕ
  pub specials : ℕ
  pub noise_level : ℕ
  pub noise : F
  pub key_id : ℕ
  pub slots : ℕ
  pub scale : F

-- A key tag is a number, 0 for the empty one.
pub record Ciphertext (F : Type 0) : Type 0 where
  pub c0 : Poly
  pub c1 : Poly
  pub offloaded : Option (Raw F)
  pub key_id : ℕ
  pub noise_factor : F
  pub noise_level : ℕ
  pub slots : ℕ
  pub scale : F

-- getLevel() + 1, from the snapshot while the ciphertext is evicted
unfoldable pub towers : {F : Type 0} → Ciphertext F → ℕ
towers ct = elim ct.offloaded [ some raw ↦ raw.num_res | none ↦ ct.c0.towers ]

-- A ciphertext on a polynomial of the context's pool
abbrev pub fresh : (cc : Context) → Ciphertext cc.Factor
fresh cc = record {
  c0 = Poly.empty;
  c1 = Poly.empty;
  offloaded = none;
  key_id = 0;
  noise_factor = cc.zero_factor;
  noise_level = 1;
  slots = 0;
  scale = cc.zero_factor;
}

-- RawCipherText{}
abbrev pub blank : (cc : Context) → Raw cc.Factor
blank cc = record {
  num_res = 0;
  limbs = 0;
  specials = 0;
  noise_level = 1;
  noise = cc.zero_factor;
  key_id = 0;
  slots = 0;
  scale = cc.zero_factor;
}

module _ (cc : Context) where
  abbrev pub Ct : Type 0
  Ct = Ciphertext cc.Factor

  unfoldable pub copy_metadata : Ct → Ct → Result Ct
  unfolding towers
  copy_metadata ct a = do
    assert cc (towers ct == towers a)
    ok (record ct {
      slots = a.slots;
      key_id = a.key_id;
      noise_level = a.noise_level;
      noise_factor = a.noise_factor;
    })

  unfoldable pub add_metadata : Ct → Ct → Ct → Result Ct
  unfolding towers
  add_metadata ct a b = do
    assert cc (towers ct == towers a)
    assert cc (not (is_flexible cc.technique) || towers a == towers b)
    assert cc (a.key_id == b.key_id)
    assert cc (a.noise_level == b.noise_level)
    ok (record ct {
      slots = max a.slots b.slots;
      key_id = a.key_id;
      noise_level = a.noise_level;
      noise_factor = a.noise_factor;
    })

  unfoldable pub mult_metadata : Ct → Ct → Ct → Result Ct
  unfolding towers
  mult_metadata ct a b = do
    assert cc (towers ct == towers a)
    assert cc (not (is_flexible cc.technique) || towers a == towers b)
    assert cc (a.key_id == b.key_id)
    ok (record ct {
      slots = max a.slots b.slots;
      key_id = a.key_id;
      noise_level = a.noise_level + b.noise_level;
      noise_factor = cc.mul a.noise_factor b.noise_factor;
    })

  -- The body of `load` on a resident ciphertext
  load_limbs : Ct → Raw cc.Factor → Result Ct
  load_limbs ct raw = do
    c0 ← Poly.load cc raw.limbs raw.specials ct.c0
    c1 ← Poly.load cc raw.limbs raw.specials ct.c1
    ok (record ct {
      c0 = c0;
      c1 = c1;
      key_id = raw.key_id;
      noise_level = raw.noise_level;
      noise_factor = raw.noise;
      slots = raw.slots;
      scale = raw.scale;
    })

  unfoldable pub reload : Ct → Result Ct
  unfolding load_limbs
  reload ct = elim ct.offloaded [
    | none ↦ ok ct
    | some raw ↦ load_limbs (record ct { offloaded = none }) raw
  ]

  unfoldable pub ensure_resident : Ct → Result Ct
  unfolding reload
  ensure_resident ct = elim ct.offloaded [ some raw ↦ reload ct | none ↦ ok ct ]

  unfoldable pub load : Ct → Raw cc.Factor → Result Ct
  unfolding load_limbs ensure_resident
  load ct raw = do ct ← ensure_resident ct; load_limbs ct raw

  -- The snapshot's rows; whose moduli they have is the caller's to say.
  unfoldable pub store : Ct → Raw cc.Factor → Result (Ct × Raw cc.Factor)
  unfolding ensure_resident
  store ct raw = do
    ct ← ensure_resident ct
    ok (
      ct,
      record raw {
        num_res = ct.c0.towers + (if ct.c0.mod_up then cc.special_count else 0);
        noise_level = ct.noise_level;
        noise = ct.noise_factor;
        key_id = ct.key_id;
        slots = ct.slots;
        scale = ct.scale;
      },
    )

  -- `moduli[i] = cc.prime.at(i).p` for each row, which throws beyond the chain.
  unfoldable pub offload : Ct → Result Ct
  unfolding store
  offload ct = elim ct.offloaded [
    | some raw ↦ ok ct
    | none ↦ do
      assert cc (not ct.c0.mod_up && not ct.c1.mod_up)
      (ct, raw) ← store ct (blank cc)
      guard (leb raw.num_res cc.top) out_of_range
      ok (record ct {
        c0 = record (ct.c0) { towers = 0 };
        c1 = record (ct.c1) { towers = 0 };
        offloaded = some (record raw { limbs = raw.num_res; specials = 0 });
      })
  ]

  unfoldable pub copy : Ct → Ct → Result Ct
  unfolding ensure_resident copy_metadata
  copy ct src = do
    ct ← ensure_resident ct
    copy_metadata
        (record ct { c0 = Poly.copy src.c0 ct.c0; c1 = Poly.copy src.c1 ct.c1; scale = src.scale })
        src
