-- ===== src/Lib.antt =====
-- Verification of the Windows side of the mobile unlock system (repository paths below). A phone
-- is paired with a PC, later receives a challenge of the service, signs it, and thereby unlocks or
-- locks the PC.
--
-- Parts of the program and the files that model them.
-- - shared/protocol/ProtocolTypes.h, SignedMessage.h: the wire. Protocol/Types has the constants,
--   opcodes and byte order, Protocol/Frame the header (SerializeFrameHeader,
--   DeserializeFrameHeader), Protocol/SignedMessage the 88-byte message that a phone signs
--   (SerializeSignedMessage, DeserializeSignedMessage).
-- - windows/pairing/DeviceIdentity.cpp, SasPin.cpp: Pairing/Identity and Pairing/SasPin.
-- - windows/pairing/PairingManager.cpp: Pairing/Messages has the JSON payloads, Pairing/Manager the
--   sessions (State), HandlePairRequest (Request), HandlePairConfirm and HandleUnpairRequest
--   (Confirm), and the calls in sequence (Calls).
-- - windows/pairing/DeviceRegistry.h: Pairing/Record has the record of a device and the interface
--   of the registry (`Devices`) that the other components use; Registry implements it as
--   windows/pairing/DeviceRegistry.cpp does: Win32 has the calls of the registry of Windows and the
--   laws that their documentation gives, Values the names and bytes of the values, Records the
--   functions on one record, Enumeration the loop over all devices, Clients the implementation.
--   Views gives what is read as a function of the stored values, Revocation what the other
--   components do with a device that was removed.
-- - windows/authentication/AuthenticationManager.cpp: Auth. Types has the state (AuthState: server
--   identity, session counter, challenges and failure counts by device text), Limits
--   IsRateLimited, RecordFailure and RecordSuccess, Request HandleAuthRequest, Response
--   HandleAuthResponse. Sessions is an abstract machine that issues and accepts session numbers;
--   Replay relates the handlers to it, over sequences of calls.
-- - windows/crypto/CryptoManager.cpp: Crypto/Der has ParseSpkiDer, where a read behind the end of
--   the input is an outcome of its own, Crypto/Keys NormalizePublicKeyToEccBlob, Crypto/Signature
--   the checks of VerifyCanonicalSignedMessage, which is the argument `verify` of Auth and Lsa.
-- - windows/lsa_authentication_package/LsaPackage.cpp: Lsa/Package has the heap and Initialize,
--   Lsa/Logon the decision of LogonUserEx2 (decide) and the strings that it returns; Lsa/Lookup is
--   windows/authentication/LsaPackageLookup.cpp.
-- - windows/network/NetworkEngine.cpp: Network/Stream has the loop of ClientWorkerLoop that takes
--   frames out of the received bytes and the bytes of SendFrame, Network/Attempts CheckRateLimit,
--   Network/Clients CleanupStaleSessions and the targets of BroadcastFrame.
-- - windows/network/MdnsResponder.cpp: Discovery. Numbers has std::stoi, Payload the JSON of an
--   announcement and its reader, Listener the responder and one turn of ListenerLoop.
-- - windows/service/MobileUnlockService.cpp: Service. State has the members that the handlers share,
--   Frames HandleNetworkFrame, Devices the identity that a payload names, Messages
--   HandleIpcMessage, Lifecycle StartServiceComponents and StopServiceComponents. Sessions runs the
--   service on events and relates it to the calls of Auth/Replay; Relay is an abstract machine for
--   the requests to lock and their answers, with handlers one after the other, Races the same with
--   the single accesses of the handlers in any order; Locking puts the service and the agent together.
-- - windows/ipc/SecureIPC.cpp: Ipc/Server has the messages that a connection delivers, Ipc/Client the
--   loops that wait for the pipe and for a message.
-- - windows/user_session_agent/UserSessionAgent.cpp: Agent has ProcessLockCommand and the turns of
--   Run.
-- - windows/credential_provider: Credential/Tile has the tile (MobileUnlockCredential.cpp), with what
--   it makes of an answer of the service (FetchAuthState) and the turns of its thread, and
--   Credential/Provider the provider (CredentialProvider.cpp). Offers is an abstract machine for what
--   the tile submits, Probe puts the tile and the service together.
-- - windows/configuration/ConfigurationManager.cpp: Configuration has the settings and their
--   validation, Configuration/Manager LoadConfiguration, with the buffer that it reads into, and
--   SaveConfiguration.
-- - windows/diagnostics/DiagnosticManager.cpp: Diagnostics.
--
-- Common has the shared tests, lists, bytes and maps; Text the printing and reading of numbers
-- that the C library does for the program (%02x, decimal), and the search in texts. Tests has sample
-- data, a registry in memory (KeyStore) and each theorem at a concrete input.
--
-- How the code is modelled. A byte is a number below 256, std::string, std::vector<uint8_t> and
-- std::array<uint8_t, N> are lists of bytes, and a map is a list of pairs. Unsigned integers keep
-- their wrap-around where the code computes with them (session counter, sequence number, end of a
-- lockout, sizes narrowed to 32 bits); the failure count of the source is an int, here a number.
-- The host is little-endian. A handler returns the state, the registry, the result code, the
-- header and the payload. A call of AuthenticationManager or PairingManager holds the object's lock
-- throughout, so it is one step. HandleNetworkFrame and HandleIpcMessage hold no lock and run on
-- several threads: the models of Service/Frames and Service/Messages are handlers that no other
-- handler comes between, and Service/Races has the accesses to the variables that these handlers
-- share for a request to lock, in any order. The clock, random bytes, the registry and the signature
-- check are arguments. Decimal printing uses
-- 20 rounds, enough for 64 bits; the sampling loop of a PIN
-- has the code's own bound of 32; the loop over received bytes takes their number as fuel, since
-- every turn but the last removes 24 bytes or more; the loop over the devices in the registry takes
-- one turn more than there are subkeys; a read from the pipe takes one turn for each 10 milliseconds of
-- its timeout, and two more.
--
-- Not modelled: TLS, sockets, pipes, threads (but for Service/Races), the event log, COM and the Windows calls themselves,
-- whose results are arguments where a modelled function depends on them; zeroing of freed secrets;
-- the phone's app.
pub mod Common
pub mod Text
pub mod Protocol
pub mod Ipc
pub mod Registry
pub mod Configuration
pub mod Diagnostics
pub mod Pairing
pub mod Crypto
pub mod Auth
pub mod Lsa
pub mod Network
pub mod Discovery
pub mod Agent
pub mod Service
pub mod Credential
pub mod Tests
