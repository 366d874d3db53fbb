-- ===== src/Signing/Tool.antt =====
-- The calls of osslsigncode in src/signing.cpp.
use aas_sign.Base.{◌==◌, Bool, true, false, List, [], ◌∷◌, ◌++◌, Text, codes, is_nil, if◌then◌else◌}
use aas_sign.Files.{Action, ◌>>=◌, ◌>>◌, lift, return, require, Platform, ProcessResult}
use aas_sign.Cms.Signers.{cms_has_signer}
use aas_sign.Signing.{Kind, pe, msi, msix, SigningOptions, read_blob}

-- A command, its input and its output, as the code writes them.
pub data Command : Type 0 where
  extract_signature : Text → Text → Command
  remove_signature : Text → Text → Command
  extract_data : Bool → Text → Text → Command
  attach_signature : Bool → Text → Text → Text → Command
  add_timestamp : Bool → SigningOptions → Text → Text → Command

-- -h sha256, and the flag of the enhanced digest
abbrev format_args : Bool → List Text → List Text
format_args enhanced args =
    args ++ (codes "-h" ∷ codes "sha256" ∷ (if enhanced then codes "-add-msi-dse" ∷ [] else []))

abbrev in_out : Text → Text → List Text
in_out source output = codes "-in" ∷ source ∷ codes "-out" ∷ output ∷ []

abbrev tls_args : SigningOptions → List Text
tls_args o =
    (if o.insecure then codes "-noverifypeer" ∷ [] else [])
    ++ (if is_nil o.ca_bundle then [] else codes "-HTTPS-CAfile" ∷ o.ca_bundle ∷ [])

unfoldable pub args_of : Command → List Text
args_of (extract_signature source output) = codes "extract-signature" ∷ in_out source output
args_of (remove_signature source output) = codes "remove-signature" ∷ in_out source output
args_of (extract_data enhanced source output) =
    format_args enhanced (codes "extract-data" ∷ []) ++ in_out source output
args_of (attach_signature enhanced sig source output) =
    format_args enhanced (codes "attach-signature" ∷ [])
    ++ codes "-sigin" ∷ sig ∷ in_out source output
args_of (add_timestamp enhanced o source output) =
    format_args enhanced (codes "add" ∷ [])
    ++ (codes "-ts" ∷ o.timestamp_url ∷ (in_out source output ++ tls_args o))

-- The file that a command writes.
abbrev pub output_of : Command → Text
output_of (extract_signature source output) = output
output_of (remove_signature source output) = output
output_of (extract_data enhanced source output) = output
output_of (attach_signature enhanced sig source output) = output
output_of (add_timestamp enhanced o source output) = output

-- s.find(needle) != std::string::npos
abbrev starts : Text → Text → Bool
starts [] s = true
starts (x ∷ xs) [] = false
starts (x ∷ xs) (y ∷ ys) = if x == y then starts xs ys else false

unfoldable pub contains : Text → Text → Bool
contains needle [] = starts needle []
contains needle (c ∷ s) = if starts needle (c ∷ s) then true else contains needle s

-- What osslsigncode says of a file without a signature.
abbrev pub missing : Kind → Text
missing pe = codes "No signature found"
missing msi = codes "MSI file has no signature"
missing msix = codes "AppxSignature.p7x does not exist"

module _ (p : Platform) (o : SigningOptions) where
  unfoldable pub invoke : Command → Action ProcessResult
  unfolding args_of
  invoke command = p.run_process o.osslsigncode (args_of command)

  unfoldable pub checked : Command → Action (Unit {0})
  unfolding invoke
  checked command = do
    result ← invoke command
    require (result.exit_code == 0) "osslsigncode failed"

  -- After a failed command only the message that there is no signature is taken for an answer.
  unfoldable pub judge : Text → Kind → ProcessResult → Action Bool
  unfolding contains
  judge output kind result =
      if result.exit_code == 0
      then (do
        blob ← read_blob p output
        signer ← lift (cms_has_signer blob)
        require signer "existing signature contains no signer"
        return true)
      else (do
        require (contains (missing kind) result.output) "cannot inspect existing signature"
        return false)

  unfoldable pub extract_existing : Text → Text → Kind → Action Bool
  unfolding invoke judge
  extract_existing path output kind = do
    result ← invoke (extract_signature path output)
    judge output kind result
