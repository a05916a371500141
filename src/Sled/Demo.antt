-- ===== src/Sled/Demo.antt =====
-- rust/sled/_demo/sleddemo/sled.go: set a key, and print its value.
use llgoexamples.Base.{some, Bytes, codes}
use llgoexamples.Sled.Crate.{Store}
use llgoexamples.Sled.Memory.{State, Op, strdup, ◌>>=◌, ◌>>◌, done, sled_free_config}
use llgoexamples.Sled.{sled_create_config, sled_config_set_path, sled_open_db}
use llgoexamples.Sled.Go.{value_free, contents, set_string, get_string}

module _ (store : Store) where
  open store use {Config, Db}

  -- The result is what is printed. The deferred calls run at the end, the last one first.
  unfoldable pub sleddemo_main : Op (State Config Db) Bytes
  unfolding strdup sled_create_config sled_config_set_path sled_open_db set_string get_string
      contents value_free sled_free_config
  sleddemo_main = do
    path ← strdup (some (codes "./db"))
    created ← sled_create_config store
    conf ← sled_config_set_path store created path
    db ← sled_open_db store conf
    set_string store db (codes "key") (codes "value")
    val ← get_string store db (codes "key")
    text ← contents val
    value_free val
    sled_free_config conf
    done text
