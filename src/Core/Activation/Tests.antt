-- ===== src/Core/Activation/Tests.antt =====
-- Activation errors on concrete chains, and an instance of each theorem.
use clashpulse.Base.{◌≡◌, ◌↔◌, refl, true, false, List, [], ◌∷◌, some, codes}
use clashpulse.Core.Activation.{
  binary, tun_start, resources, Failure, foreign, activation, valid_bytes, is_alpha, is_mark,
  valid_resource_id, names_resource, Public, as_activation, publish, public_activation,
  wrap_activation_resource, wrap_activation, unwrap,
}
use clashpulse.Core.Activation.Safe.{
  IsSafe, IsIdBytes, around, shown_id, valid_resource_id_iff, public_activation-IsSafe,
  public_activation-wrap_activation_resource,
}

identifiers :
    (valid_resource_id "geo-ip.v2" ≡ true)
    × (valid_resource_id ".hidden" ≡ false)
    × (valid_resource_id "a/b" ≡ false)
    × (valid_resource_id "" ≡ false)
unfolding valid_resource_id valid_bytes is_alpha is_mark
identifiers = (refl, refl, refl, refl)

abbrev wrapped : List Failure
wrapped =
    foreign "start: core failed"
    ∷ activation binary "mihomo"
    ∷ foreign "/home/u/core: permission denied"
    ∷ []

wrapped_public :
    public_activation wrapped ≡ some (record { stage = binary; resource_id = "mihomo" })
unfolding public_activation as_activation publish valid_resource_id valid_bytes is_alpha is_mark
    names_resource
wrapped_public = refl

-- A path is no identifier.
path_hidden :
    public_activation (activation resources "/etc/x" ∷ [])
    ≡ some (record { stage = resources; resource_id = "" })
unfolding public_activation as_activation publish valid_resource_id valid_bytes is_alpha is_mark
    names_resource
path_hidden = refl

cause_kept : unwrap (wrap_activation tun_start wrapped) ≡ wrapped
unfolding unwrap wrap_activation
cause_kept = refl

valid_resource_id_iff_example :
    (valid_resource_id "geo-ip.v2" ≡ true) ↔ IsIdBytes (codes "geo-ip.v2")
valid_resource_id_iff_example = valid_resource_id_iff "geo-ip.v2"

public_activation-IsSafe_example :
    (f : Public) × (as_activation wrapped ≡ some f)
    × IsSafe f (record { stage = binary; resource_id = "mihomo" })
public_activation-IsSafe_example =
    public_activation-IsSafe wrapped (record { stage = binary; resource_id = "mihomo" })
      wrapped_public

public_activation-wrap_activation_resource_example :
    public_activation (around ("refresh" ∷ []) (wrap_activation_resource resources "geo" wrapped))
    ≡ some (record { stage = resources; resource_id = shown_id resources "geo" })
public_activation-wrap_activation_resource_example =
    public_activation-wrap_activation_resource ("refresh" ∷ []) resources "geo" wrapped
