-- ===== src/E2e/Build.antt =====
-- `build_flink_jar`, and how `main` finds the file that it built.
use delayed_order_sms_flink.Base.{
  Bool, true, false, ◌&&◌, not, Option, none, some, List, [], ◌∷◌, ◌++◌, Text, codes, text_eq,
  ends_with, contains, if◌then◌else◌, pos, int_eq, Result, ok, err,
}
use delayed_order_sms_flink.E2e.Host.{
  Host, Variables, Effect, returns, reads, ◌>>=◌, subprocess_run,
}

-- `env.get(name, "")`
unfoldable pub env_value : Text → Variables → Text
env_value name [] = []
env_value name ((n, v) ∷ env) = if text_eq n name then v else env_value name env

-- `env[name] = value`
unfoldable pub set_env : Text → Text → Variables → Variables
set_env name value [] = (name, value) ∷ []
set_env name value ((n, v) ∷ env) =
    if text_eq n name then (n, value) ∷ env else (n, v) ∷ set_env name value env

abbrev is_filled : Text → Bool
is_filled [] = false
is_filled (c ∷ s) = true

abbrev pub java_home_candidates : Variables → List Text
java_home_candidates env =
    env_value (codes "JAVA_HOME") env
    ∷ codes "C:\\Program Files\\Java\\jdk-17.0.2"
    ∷ codes "C:\\Program Files\\Java\\latest"
    ∷ []

-- A file that may be the job's
unfoldable pub is_candidate : Text → Bool
is_candidate f = ends_with (codes ".jar") f && not (contains (codes "original") f)

unfoldable pub first_candidate : List Text → Option Text
first_candidate [] = none
first_candidate (f ∷ files) =
    let rest = first_candidate files in if is_candidate f then some f else rest

abbrev pub flink_jar_name : Text
flink_jar_name = codes "delayed-order-sms-flink-job.jar"

module _ ⦃H : Host⦄ where
  -- The environment with the first directory among the candidates as `JAVA_HOME`
  unfoldable pub with_java_home : List Text → Variables → H.World → Variables
  with_java_home [] env w = env
  with_java_home (candidate ∷ candidates) env w =
      if is_filled candidate && H.is_dir candidate w
      then set_env (codes "PATH")
          (H.join candidate (codes "bin") ++ H.path_separator ++ env_value (codes "PATH") env)
          (set_env (codes "JAVA_HOME") candidate env)
      else with_java_home candidates env w

  abbrev pub build_command : Text → List Text
  build_command mvn_path =
      mvn_path
      ∷ codes "clean"
      ∷ codes "package"
      ∷ codes "-f"
      ∷ H.join (H.join H.project_root (codes "flink-job")) (codes "pom.xml")
      ∷ codes "-DskipTests"
      ∷ codes "-q"
      ∷ []

  unfoldable pub build_with : Option Text → Effect Bool
  build_with none = returns false
  build_with (some []) = returns false
  build_with (some (c ∷ path)) = do
    env ← reads (λ w. with_java_home (java_home_candidates (H.environ w)) (H.environ w) w)
    result ← subprocess_run (build_command (c ∷ path)) (some env)
    returns (int_eq result.returncode (pos 0))

  unfoldable pub build_flink_jar : Effect Bool
  build_flink_jar = do mvn_path ← reads (H.which (codes "mvn")); build_with mvn_path

  abbrev pub target_directory : Text
  target_directory = H.join (H.join H.project_root (codes "flink-job")) (codes "target")

  -- The name of the job's file: the one that the build gives, or the first candidate in its
  -- directory
  unfoldable pub find_jar_name : H.World → Result (Option Text)
  find_jar_name w =
      if H.is_file (H.join target_directory flink_jar_name) w
      then ok (some flink_jar_name)
      else elim (H.list_dir target_directory w) [
        | err e ↦ err e
        | ok files ↦ ok (first_candidate files)
      ]

  -- The path of the job's file
  unfoldable pub find_jar : H.World → Result (Option Text)
  find_jar w = elim (find_jar_name w) [
    | err e ↦ err e
    | ok none ↦ ok none
    | ok (some name) ↦ ok (some (H.join target_directory name))
  ]
