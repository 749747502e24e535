-- ===== src/Authorizer/Defaults.antt =====
-- `defaultPolicies` of controlplane/authorizer/authorizer.go.
use niova_mdsvc.Prelude.{String, List, [], ◌∷◌}
use niova_mdsvc.Authorizer.{AbacRule, Config}

abbrev pub only_admin : List String
only_admin = "admin" ∷ []

abbrev pub admin_user : List String
admin_user = "admin" ∷ "user" ∷ []

abbrev pub user_admin : List String
user_admin = "user" ∷ "admin" ∷ []

abbrev pub vdev_by_id : List AbacRule
vdev_by_id = record { argument = "vdev"; prefix = "v/" } ∷ []

abbrev pub vdev_by_id_or_name : List AbacRule
vdev_by_id_or_name =
    record { argument = "vdev"; prefix = "v/" }
    ∷ record { argument = "vdev"; prefix = "vname/" }
    ∷ []

unfoldable pub default_policies : Config
default_policies =
    ("WPCreateVdev", record { rbac = admin_user; abac = [] })
    ∷ ("WPNisdCfg", record { rbac = only_admin; abac = [] })
    ∷ ("ApplyNisd", record { rbac = only_admin; abac = [] })
    ∷ ("WPDeviceInfo", record { rbac = only_admin; abac = [] })
    ∷ ("WPCreatePartition", record { rbac = only_admin; abac = [] })
    ∷ ("WPPDUCfg", record { rbac = only_admin; abac = [] })
    ∷ ("WPRackCfg", record { rbac = only_admin; abac = [] })
    ∷ ("WPHyperVisorCfg", record { rbac = only_admin; abac = [] })
    ∷ ("WPNisdArgs", record { rbac = only_admin; abac = [] })
    ∷ ("ReadAllNisdConfigs", record { rbac = only_admin; abac = [] })
    ∷ ("ReadNisdConfig", record { rbac = admin_user; abac = [] })
    ∷ ("RdDeviceInfo", record { rbac = only_admin; abac = [] })
    ∷ ("ReadPartition", record { rbac = only_admin; abac = [] })
    ∷ ("ReadPDUCfg", record { rbac = only_admin; abac = [] })
    ∷ ("ReadRackCfg", record { rbac = only_admin; abac = [] })
    ∷ ("ReadHyperVisorCfg", record { rbac = only_admin; abac = [] })
    ∷ ("ReadVdevsInfoWithChunkMapping", record { rbac = user_admin; abac = vdev_by_id_or_name })
    ∷ ("ReadVdevInfo", record { rbac = user_admin; abac = vdev_by_id_or_name })
    ∷ ("APDeleteVdev", record { rbac = only_admin; abac = [] })
    ∷ ("ReadAllVdevInfo", record { rbac = only_admin; abac = [] })
    ∷ ("ReadChunk", record { rbac = user_admin; abac = vdev_by_id })
    ∷ ("ReadChunkNisd", record { rbac = user_admin; abac = vdev_by_id })
    ∷ ("RdNisdArgs", record { rbac = only_admin; abac = [] })
    ∷ ("WPPFSCfg", record { rbac = only_admin; abac = [] })
    ∷ ("ReadPFSCfg", record { rbac = admin_user; abac = [] })
    ∷ ("WPMountVdev", record { rbac = admin_user; abac = [] })
    ∷ ("APMountVdev", record { rbac = admin_user; abac = vdev_by_id })
    ∷ ("ReadAllResources", record { rbac = only_admin; abac = [] })
    ∷ ("PutUser", record { rbac = only_admin; abac = [] })
    ∷ ("GetUser", record { rbac = admin_user; abac = [] })
    ∷ ("CreateAdminUser", record { rbac = only_admin; abac = [] })
    ∷ ("Login", record { rbac = admin_user; abac = [] })
    ∷ []
