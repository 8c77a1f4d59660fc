-- ===== src/Protocol/PcStates.antt =====
-- shared/protocol/ProtocolTypes.h: the states of the PC.
use pc_unlock_project.Common.{ℕ}

pub data PcState : Type 0 where
  unknown offline online locked unlocked suspended sleeping pairing authenticating : PcState
  proto_error : PcState

-- The number of a state.
abbrev pub state_value : PcState → ℕ
state_value unknown = 0
state_value offline = 1
state_value online = 2
state_value locked = 3
state_value unlocked = 4
state_value suspended = 5
state_value sleeping = 6
state_value pairing = 7
state_value authenticating = 8
state_value proto_error = 9
