-- ===== src/Onchain/Body.antt =====
-- web/lib/onchain.ts: an `OnchainProof` as the members of a request's body.
use signet_platform.Prelude.Text.{codes}
use signet_platform.Effects.Json.{str, obj, Fields, end, field}
use signet_platform.UserOp.Wire.{SignedUserOp}
use signet_platform.Onchain.Call.{OnchainProof, user_op, transaction_hash}

-- `SignedUserOp` of web/lib/userop.ts, under the names that its members have there.
unfoldable pub user_op_fields : SignedUserOp → Fields
user_op_fields op = field (codes "sender") (str op.sender) (
    field (codes "nonce") (str op.nonce) (
      field (codes "factory") (str op.factory) (
        field (codes "factoryData") (str op.factory_data) (
          field (codes "callData") (str op.call_data) (
            field (codes "callGasLimit") (str op.call_gas_limit) (
              field (codes "verificationGasLimit") (str op.verification_gas_limit) (
                field (codes "preVerificationGas") (str op.pre_verification_gas) (
                  field (codes "maxFeePerGas") (str op.max_fee_per_gas) (
                    field (codes "maxPriorityFeePerGas") (str op.max_priority_fee_per_gas) (
                      field (codes "paymaster") (str op.paymaster) (
                        field (codes "paymasterData") (str op.paymaster_data)
                          (field (codes "signature") (str op.signature) end))))))))))))

unfoldable pub proof_fields : OnchainProof → Fields
unfolding user_op_fields
proof_fields (user_op op) = field (codes "user_op") (obj (user_op_fields op)) end
proof_fields (transaction_hash hash) = field (codes "transaction_hash") (str hash) end
