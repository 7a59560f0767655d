-- ===== src/Bootstrap/Env.antt =====
-- internal/bootstrap/template.go: the environment of a node.
use gpuscale.Prelude.{List, [], ◌∷◌, ◌++◌, Text, txt, insert}
use gpuscale.Provider.{BootstrapConfig}

-- `for k, v := range extra { env[k] = v }`
unfoldable pub merge_env : List (Text × Text) → List (Text × Text) → List (Text × Text)
merge_env [] env = env
merge_env ((k, v) ∷ more) env = merge_env more (insert k v env)

abbrev unless_empty : Text → Text → List (Text × Text)
unless_empty k [] = []
unless_empty k (c ∷ v) = (k, c ∷ v) ∷ []

unfoldable pub generate_env_vars : BootstrapConfig → List (Text × Text)
unfolding merge_env
generate_env_vars c = merge_env c.extra_env (
    (txt "GPU_TYPE", c.gpu_type)
      ∷ (txt "PROVIDER", c.provider_name)
      ∷ (txt "INSTANCE_ID", c.instance_id)
      ∷ (txt "NODE_TYPE", txt "standalone")
      ∷ unless_empty (txt "MODEL_ID") c.model_id
    ++ unless_empty (txt "MODEL_CACHE_URL") c.model_cache_url)
