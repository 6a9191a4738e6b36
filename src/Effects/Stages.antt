-- ===== src/Effects/Stages.antt =====
-- The progress stages that web/lib reports, with the copy that the console shows for each.
use signet_platform.Prelude.Text.{Str, codes}

-- web/lib/userop.ts: `UserOpStage`
pub data UserOpStage : Type 0 where
  building sponsoring_stub estimating sponsoring signing submitting confirming done : UserOpStage

pub userop_stage_copy : UserOpStage → Str
userop_stage_copy UserOpStage.building = codes "Building the transaction"
userop_stage_copy UserOpStage.sponsoring_stub = codes "Requesting gas sponsorship"
userop_stage_copy UserOpStage.estimating = codes "Estimating gas"
userop_stage_copy UserOpStage.sponsoring = codes "Finalising sponsorship"
userop_stage_copy UserOpStage.signing = codes "Signing with your Signet key"
userop_stage_copy UserOpStage.submitting = codes "Submitting"
userop_stage_copy UserOpStage.confirming = codes "Waiting for confirmation"
userop_stage_copy UserOpStage.done = codes "Done"

-- web/lib/deploy.ts: `DeployStage` is `UserOpStage` and one stage more.
pub data DeployStage : Type 0 where
  userop : UserOpStage → DeployStage
  attaching : DeployStage

pub deploy_stage_copy : DeployStage → Str
unfolding userop_stage_copy
deploy_stage_copy (DeployStage.userop s) = userop_stage_copy s
deploy_stage_copy DeployStage.attaching = codes "Linking the group to your app"

-- web/lib/provision.ts: `ProvisionStage`
pub data ProvisionStage : Type 0 where
  session certificate authenticating keygen wallet recording done : ProvisionStage

pub provision_stage_copy : ProvisionStage → Str
provision_stage_copy ProvisionStage.session = codes "Creating a session key"
provision_stage_copy ProvisionStage.certificate = codes "Requesting a certificate"
provision_stage_copy ProvisionStage.authenticating = codes "Authenticating with your operators"
provision_stage_copy ProvisionStage.keygen = codes "Generating your Signet key"
provision_stage_copy ProvisionStage.wallet = codes "Deriving your smart wallet"
provision_stage_copy ProvisionStage.recording = codes "Finishing up"
provision_stage_copy ProvisionStage.done = codes "Ready"

-- web/lib/signet.ts: the stages of a sign-in, `SignetLoginProgress["stage"]`
pub data LoginStage : Type 0 where
  challenge oauth session_key proving registering keygen signing verifying : LoginStage

pub stage_copy : LoginStage → Str
stage_copy LoginStage.challenge = codes "Requesting a sign-in challenge"
stage_copy LoginStage.oauth = codes "Redirecting to your identity provider"
stage_copy LoginStage.session_key = codes "Generating an ephemeral session key"
stage_copy LoginStage.proving = codes "Proving your credential in zero knowledge"
stage_copy LoginStage.registering = codes "Registering the session with the signing group"
stage_copy LoginStage.keygen = codes "Locating your key across the group"
stage_copy LoginStage.signing = codes "Asking the group to sign the challenge"
stage_copy LoginStage.verifying = codes "Verifying the threshold signature"
