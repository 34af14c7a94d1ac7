-- ===== src/Ckks/Ciphertext/Offload.antt =====
-- Ciphertext::offload and its reload: the host snapshot and back.
use fideslib.Prelude.{ℕ, ◌+◌, ◌≤◌, ◌≡◌, refl, true, false, some, arith, leb}
use fideslib.Ckks.Result.{ok}
use fideslib.Ckks.Context.{Context}
use fideslib.Ckks.Poly
use fideslib.Ckks.Ciphertext.{Ciphertext, towers, offload, ensure_resident, reload}
use fideslib.Ckks.Scaling.Steps.{shape}

-- A ciphertext that has been evicted
abbrev pub evicted : (cc : Context) → ℕ → ℕ → ℕ → ℕ → cc.Factor → cc.Factor → Ciphertext cc.Factor
evicted cc key slots t d f s = record {
  c0 = record { towers = 0; mod_up = false };
  c1 = record { towers = 0; mod_up = false };
  offloaded = some (record {
    num_res = t;
    limbs = t;
    specials = 0;
    noise_level = d;
    noise = f;
    key_id = key;
    slots = slots;
    scale = s;
  });
  key_id = key;
  noise_factor = f;
  noise_level = d;
  slots = slots;
  scale = s;
}

module _ (cc : Context) (key slots t d : ℕ) (f s : cc.Factor) (h : t ≤ cc.top) where
  offload_lem : offload cc (shape cc key slots t d f s) ≡ ok (evicted cc key slots t d f s)
  unfolding offload
  offload_lem =
      let z : t + 0 ≡ t = omega arith in
      let le : leb t cc.top ≡ true = ground (arith, h) in rw (z, le)

  poly_load_lem :
      Poly.load cc t 0 (record { towers = 0; mod_up = false })
      ≡ ok (record { towers = t; mod_up = false })
  unfolding Poly.load Poly.drop_to_level Poly.grow
  poly_load_lem = ground (arith, h)

  reload_lem : reload cc (evicted cc key slots t d f s) ≡ ok (shape cc key slots t d f s)
  unfolding reload
  reload_lem = rw poly_load_lem

  -- Ciphertext::offload and the reload that the next use does, on a resident ciphertext that is not
  -- extended and not above the top level: both return, getLevel answers the same while the
  -- ciphertext is evicted, and the reload gives back exactly the ciphertext that was evicted.
  pub reload-offload :
      (offload cc (shape cc key slots t d f s) ≡ ok (evicted cc key slots t d f s))
      × (towers (evicted cc key slots t d f s) ≡ t)
      × (ensure_resident cc (evicted cc key slots t d f s) ≡ ok (shape cc key slots t d f s))
  unfolding towers ensure_resident
  reload-offload = (offload_lem, refl, reload_lem)
