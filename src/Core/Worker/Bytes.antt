-- ===== src/Core/Worker/Bytes.antt =====
-- A signal processing for tests.
use omnimodem.Base.{ℕ, ◌*◌, ◌%◌, ◌^◌, inl, inr, [], ◌∷◌, ◌++◌, some}
use omnimodem.Base.Text.{codes}
use omnimodem.Core.Event.{packet}
use omnimodem.Core.Worker.{Dsp}

-- A packet is its bytes as samples; other frames cannot be sent.
abbrev pub byte_dsp : Dsp
byte_dsp = record {
  Sample = ℕ;
  Meta = Unit;
  no_meta = tt;
  Modulator = Unit;
  modulate = λ f m. (elim (f.payload) [ packet bs ↦ inr bs | _ ↦ inl (codes "unsupported") ], m);
  native_rate = λ m. 8000;
  resample = λ from to xs. xs ++ xs;
  burst_for_mode = λ key center rate. some (center ∷ []);
  to_pcm = λ s gain. s * gain % 2 ^ 16;
  from_utf8_lossy = λ bs. bs;
}
