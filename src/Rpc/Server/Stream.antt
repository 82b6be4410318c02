-- ===== src/Rpc/Server/Stream.antt =====
-- src/tudou/rpc/binary/BinaryRpcServer.cpp: what a stream of bytes asks of the server, as a
-- relation on plain lists.
use tudou.Prelude.{ℕ, Bool, true, false, ◌≡◌, ◌⊎◌, List, [], ◌∷◌, ◌++◌, Option, none, some, Text}
use tudou.Rpc.Protocol.{RpcHeader}
use tudou.Rpc.Codec.{success, empty, half_pack, error}
use tudou.Rpc.Codec.Frame.{split_frame}
use tudou.Rpc.Router.{Router, dispatch, DispatchOutcome, thrown, called_back, pending}
use tudou.Rpc.Server.{Effect, send, response_bytes}

-- The response that an answered request sends.
abbrev pub reply : ℕ → ℕ → DispatchOutcome → List Effect
reply conn sequence_id (thrown message) = []
reply conn sequence_id (called_back raw) = send conn (response_bytes sequence_id raw) ∷ []
reply conn sequence_id pending = []

module _ (parse_meta : List ℕ → Option (Text × Text)) (router : Router) (conn : ℕ) where
  -- From the bytes `q` the server sends `es` and stops before `left`, for more bytes or (`corrupt`)
  -- because what it has found is no request.
  pub data Serves : List ℕ → Bool → List ℕ → List Effect → Type 0 where
    waits :
        {q left : List ℕ} {es : List Effect}
        → (split_frame q ≡ (empty, q)) ⊎ (split_frame q ≡ (half_pack, q))
        → left ≡ q
        → es ≡ []
        → Serves q false left es
    foreign :
        {q left : List ℕ} {es : List Effect}
        → split_frame q ≡ (error, q)
        → left ≡ q
        → es ≡ []
        → Serves q true left es
    no_meta :
        {q left : List ℕ} {es : List Effect} (h : RpcHeader) (meta_bytes body_bytes : List ℕ)
        → split_frame q ≡ (success h meta_bytes body_bytes, left)
        → parse_meta meta_bytes ≡ none
        → es ≡ []
        → Serves q true left es
    serves :
        {q rest left : List ℕ} {corrupt : Bool} {es later : List Effect} (h : RpcHeader)
        (meta_bytes body_bytes : List ℕ) (service_name method_name : Text)
        → split_frame q ≡ (success h meta_bytes body_bytes, rest)
        → parse_meta meta_bytes ≡ some (service_name, method_name)
        → es
          ≡ reply conn h.sequence_id (dispatch router service_name method_name body_bytes) ++ later
        → Serves rest corrupt left later
        → Serves q corrupt left es
