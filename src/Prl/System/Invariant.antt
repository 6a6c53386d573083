-- ===== src/Prl/System/Invariant.antt =====
-- What holds of the protocol layer between any two steps.
use usb_pd_firmware.Prelude.{
  ℕ, ◌+◌, ◌≤◌, ◌<◌, ◌≡◌, ◌⊎◌, false, Option, none, some, List, [], ◌∷◌, length, Allows,
}
use usb_pd_firmware.Pd.{PdMsg}
use usb_pd_firmware.Pe.{Ptr, null, live, dangling}
use usb_pd_firmware.Prl.{
  pdb_msg_pool_size, Prl, ToPe, msg_rx, tx_done, tx_err, hard_sent, i_ovrtemp,
}
use usb_pd_firmware.Prl
use usb_pd_firmware.Prl.Rx
use usb_pd_firmware.Prl.Rx.{RxState}
use usb_pd_firmware.Prl.Tx
use usb_pd_firmware.Prl.Tx.{TxState}
use usb_pd_firmware.Prl.System.{
  Sys, Action, run_rx, run_tx, run_hr, poll, send_message, start_ams, ask_hard_reset,
  hard_reset_done, free_message, sys_step,
}

-- Answers to the policy engine's requests, and messages that it was given.
abbrev pub answers : List ToPe → ℕ
answers [] = 0
answers (tx_done ∷ es) = answers es + 1
answers (tx_err ∷ es) = answers es + 1
answers (msg_rx _ ∷ es) = answers es
answers (Prl.ToPe.reset ∷ es) = answers es
answers (hard_sent ∷ es) = answers es
answers (i_ovrtemp ∷ es) = answers es

abbrev pub delivered : List ToPe → ℕ
delivered [] = 0
delivered (tx_done ∷ es) = delivered es
delivered (tx_err ∷ es) = delivered es
delivered (msg_rx _ ∷ es) = delivered es + 1
delivered (Prl.ToPe.reset ∷ es) = delivered es
delivered (hard_sent ∷ es) = delivered es
delivered (i_ovrtemp ∷ es) = delivered es

-- A message in transmission, or held by the receive thread, counts as one.
abbrev pub in_hand : Ptr → ℕ
in_hand null = 0
in_hand (live _) = 1
in_hand dangling = 1

abbrev pub held : Option PdMsg → ℕ
held none = 0
held (some _) = 1

-- Pointers to messages that were given back.
abbrev pub lost : Ptr → ℕ
lost null = 0
lost (live _) = 0
lost dangling = 1

-- A mailbox holds no NULL, and no message that was given back.
abbrev pub bad : List Ptr → ℕ
bad [] = 0
bad (null ∷ rest) = bad rest + 1
bad (live _ ∷ rest) = bad rest
bad (dangling ∷ rest) = bad rest + 1

-- The receive thread holds a message of the pool everywhere but in its first state.
abbrev pub held_by : RxState → ℕ
held_by Rx.RxState.wait_phy = 0
held_by _ = 1

abbrev pub RxHas : RxState → Option PdMsg → Type 0
RxHas Rx.RxState.wait_phy m = Unit
RxHas _ m = held m ≡ 1

-- Which states of the transmit thread have a message, and which have none.
abbrev pub TxHas : TxState → Ptr → Type 0
TxHas Tx.TxState.phy_reset m = Unit
TxHas Tx.TxState.discard_message m = Unit
TxHas Tx.TxState.wait_message m = in_hand m ≡ 0
TxHas _ m = in_hand m ≡ 1

abbrev pub IsMessageId : Option ℕ → Type 0
IsMessageId none = Unit
IsMessageId (some id) = id < 8

-- With `n` messages posted by the policy engine.
pub record Inv (n : ℕ) (s : Sys) : Type 0 where
  pub tx_has : TxHas s.tx s.prl.tx_message
  pub rx_has : RxHas s.rx s.prl.rx_message
  pub live_message : lost s.prl.tx_message ≡ 0
  pub live_mail : bad s.prl.tx_mailbox ≡ 0
  pub places : length s.prl.tx_mailbox ≤ pdb_msg_pool_size
  pub mail : (s.prl.tx_events.msg_tx ≡ false) ⊎ (1 ≤ length s.prl.tx_mailbox)
  pub answered : answers s.prl.to_pe + length s.prl.tx_mailbox + in_hand s.prl.tx_message ≡ n
  pub pool : s.prl.allocated ≡ s.prl.freed + delivered s.prl.to_pe + held_by s.rx
  pub counter : s.prl.tx_messageidcounter < 8
  pub stored : IsMessageId s.prl.rx_messageid

-- The messages that the policy engine posts in a run.
abbrev pub posts : List Action → ℕ
posts [] = 0
posts (run_rx _ ∷ rest) = posts rest
posts (run_tx _ ∷ rest) = posts rest
posts (run_hr _ ∷ rest) = posts rest
posts (poll _ ∷ rest) = posts rest
posts (send_message _ ∷ rest) = posts rest + 1
posts (start_ams ∷ rest) = posts rest
posts (ask_hard_reset ∷ rest) = posts rest
posts (hard_reset_done ∷ rest) = posts rest
posts (free_message ∷ rest) = posts rest

-- What a step asks of the pool and of the policy engine: a buffer when a message was received, a place
-- in the mailbox for a message that is posted, and that a message is given back only when the
-- transmitter has none.
abbrev pub Allowed : Action → Prl → Type 0
Allowed (run_rx none) p = p.rx_events.i_gcrcsent ≡ false
Allowed (send_message _) p = length p.tx_mailbox < pdb_msg_pool_size
Allowed free_message p = (p.tx_mailbox ≡ []) × (p.tx_message ≡ null)
Allowed _ p = Unit

-- A run each of whose steps is so.
unfoldable pub Orderly : List Action → Sys → Type 0
Orderly [] s = Unit
Orderly (a ∷ rest) s = Allowed a s.prl × Allows (Orderly rest) (sys_step a s)
