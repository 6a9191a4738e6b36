-- ===== src/Abi.antt =====
-- web/lib/abi.ts: the contract functions that the console can ask a wallet to sign.
use signet_platform.Prelude.{List, [], ◌∷◌}
use signet_platform.Prelude.Text.{Str, codes}

-- The nonpayable functions of `signetGroupAbi`; `GroupFunction` of web/lib/onchain.ts is their union.
pub data GroupFunction : Type 0 where
  invite_node queue_removal cancel_removal execute_removal : GroupFunction
  add_issuer remove_issuer add_auth_key remove_auth_key : GroupFunction
  transfer_manager request_reshare : GroupFunction
  queue_auth_resolver cancel_auth_resolver execute_auth_resolver : GroupFunction

unfoldable pub function_name : GroupFunction → Str
function_name invite_node = codes "inviteNode"
function_name queue_removal = codes "queueRemoval"
function_name cancel_removal = codes "cancelRemoval"
function_name execute_removal = codes "executeRemoval"
function_name add_issuer = codes "addIssuer"
function_name remove_issuer = codes "removeIssuer"
function_name add_auth_key = codes "addAuthKey"
function_name remove_auth_key = codes "removeAuthKey"
function_name transfer_manager = codes "transferManager"
function_name request_reshare = codes "requestReshare"
function_name queue_auth_resolver = codes "queueAuthResolver"
function_name cancel_auth_resolver = codes "cancelAuthResolver"
function_name execute_auth_resolver = codes "executeAuthResolver"

-- The types of the inputs, as the ABI spells them.
unfoldable pub input_types : GroupFunction → List Str
input_types invite_node = codes "address" ∷ []
input_types queue_removal = codes "address" ∷ []
input_types cancel_removal = codes "address" ∷ []
input_types execute_removal = codes "address" ∷ []
input_types add_issuer = codes "string" ∷ codes "string[]" ∷ []
input_types remove_issuer = codes "bytes32" ∷ []
input_types add_auth_key = codes "bytes" ∷ []
input_types remove_auth_key = codes "bytes32" ∷ []
input_types transfer_manager = codes "address" ∷ []
input_types request_reshare = []
input_types queue_auth_resolver = codes "uint64" ∷ codes "address" ∷ codes "bool" ∷ []
input_types cancel_auth_resolver = []
input_types execute_auth_resolver = []
