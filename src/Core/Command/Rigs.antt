-- ===== src/Core/Command/Rigs.antt =====
-- The device of a worker beside the binding of its channel.
use native.Mathlib.Decide.{ℕ_discrete}
use omnimodem.Base.{ℕ, ◌≡◌, ◌≢◌, List, Option, none, some}
use omnimodem.Base.Store.{get-insert_self, get-insert_ne, get-remove_self, get-remove_ne}
use omnimodem.Core.Live.{Parts, AudioBinding, RxWorker, TxHandle, LiveBindings}
use omnimodem.Core.Audio.{at, put, drop_at}

module _ (p : Parts) where
  -- A worker is on its channel's device.
  abbrev pub FitsRx : Option (RxWorker p) → Option (AudioBinding p) → Type 0
  FitsRx none audio = Unit
  FitsRx (some w) none = ⊥
  FitsRx (some w) (some b) = w.rig ≡ b.rx_dev

  abbrev pub FitsTx : Option (TxHandle p) → Option (AudioBinding p) → Type 0
  FitsTx none audio = Unit
  FitsTx (some w) none = ⊥
  FitsTx (some w) (some b) = w.rig ≡ b.tx_dev

  abbrev Fits : Option (RxWorker p) → Option (TxHandle p) → Option (AudioBinding p) → Type 0
  Fits rx tx audio = FitsRx rx audio × FitsTx tx audio

  abbrev pub RigsOf :
      List (ℕ × RxWorker p) → List (ℕ × TxHandle p) → List (ℕ × AudioBinding p) → Type 0
  RigsOf rx tx audio = (id : ℕ) → Fits (at id rx) (at id tx) (at id audio)

  -- Every worker runs on the device that its channel is bound to.
  abbrev pub Rigs : LiveBindings p → Type 0
  Rigs live = RigsOf live.rx_workers live.tx_workers live.audio

  put_ne : {A : Type 0} (id j : ℕ) (a : A) (m : List (ℕ × A)) → id ≢ j → at j (put id a m) ≡ at j m
  put_ne id j a m ne = get-insert_ne ℕ_discrete id j a m ne

  drop_ne : {A : Type 0} (id j : ℕ) (m : List (ℕ × A)) → id ≢ j → at j (drop_at id m) ≡ at j m
  drop_ne id j m ne = get-remove_ne ℕ_discrete id j m ne

  put_self :
      {A : Type 0} (id j : ℕ) (a : A) (m : List (ℕ × A)) → id ≡ j → at j (put id a m) ≡ some a
  put_self id j a m e = rw (← e) (get-insert_self ℕ_discrete id a m)

  drop_self : {A : Type 0} (id j : ℕ) (m : List (ℕ × A)) → id ≡ j → at j (drop_at id m) ≡ none
  drop_self id j m e = rw (← e) (get-remove_self ℕ_discrete id m)

  module _ (id : ℕ) (rx : List (ℕ × RxWorker p)) (tx : List (ℕ × TxHandle p))
      (audio : List (ℕ × AudioBinding p)) (h : RigsOf rx tx audio) where
    pub without_tx : RigsOf rx (drop_at id tx) audio
    without_tx j = elim (ℕ_discrete id j) [
      | yes e ↦ rw (drop_self id j tx e) ((h j).0, tt)
      | no ne ↦ rw (drop_ne id j tx ne) (h j)
    ]

    pub with_tx : (w : TxHandle p) → FitsTx (some w) (at id audio) → RigsOf rx (put id w tx) audio
    with_tx w fits j = elim (ℕ_discrete id j) [
      | yes e ↦ rw (put_self id j w tx e) ((h j).0, rw e at fits)
      | no ne ↦ rw (put_ne id j w tx ne) (h j)
    ]

    pub with_rx : (w : RxWorker p) → FitsRx (some w) (at id audio) → RigsOf (put id w rx) tx audio
    with_rx w fits j = elim (ℕ_discrete id j) [
      | yes e ↦ rw (put_self id j w rx e) (rw e at fits, (h j).1)
      | no ne ↦ rw (put_ne id j w rx ne) (h j)
    ]

    pub without_any : RigsOf (drop_at id rx) (drop_at id tx) (drop_at id audio)
    without_any j = elim (ℕ_discrete id j) [
      | yes e ↦ rw (drop_self id j rx e, drop_self id j tx e) (tt, tt)
      | no ne ↦ rw (drop_ne id j rx ne, drop_ne id j tx ne, drop_ne id j audio ne) (h j)
    ]

    pub rebound :
        (b : AudioBinding p)
        → FitsRx (at id rx) (some b)
        → RigsOf rx (drop_at id tx) (put id b audio)
    rebound b fits j = elim (ℕ_discrete id j) [
      | yes e ↦ rw (drop_self id j tx e, put_self id j b audio e) (rw e at fits, tt)
      | no ne ↦ rw (drop_ne id j tx ne, put_ne id j b audio ne) (h j)
    ]

    pub rebound_fresh :
        (b : AudioBinding p) → RigsOf (drop_at id rx) (drop_at id tx) (put id b audio)
    rebound_fresh b j = elim (ℕ_discrete id j) [
      | yes e ↦ rw (drop_self id j rx e, drop_self id j tx e) (tt, tt)
      | no ne ↦ rw (drop_ne id j rx ne, drop_ne id j tx ne, put_ne id j b audio ne) (h j)
    ]
