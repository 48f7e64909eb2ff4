-- ===== src/Builder/Contents.antt =====
-- What internal/builder/builder.go puts into the two trees: directories, programs and accounts.
use a_from_scratch_linux_use.Base.{[], ◌++◌, ◌∷◌, str, List, Bytes}

abbrev pub init_dirs : List Bytes
init_dirs =
    str "dev"
    ∷ str "proc"
    ∷ str "sys"
    ∷ str "etc"
    ∷ str "bin"
    ∷ str "sbin"
    ∷ str "etc/karim/services"
    ∷ []

abbrev pub root_dirs : List Bytes
root_dirs =
    str "bin"
    ∷ str "sbin"
    ∷ str "etc/karim/services"
    ∷ str "run/karim"
    ∷ str "var"
    ∷ str "tmp"
    ∷ str "proc"
    ∷ str "sys"
    ∷ str "dev"
    ∷ []

abbrev pub daemons : List Bytes
daemons = str "karim-svcd" ∷ str "karim-secd" ∷ str "karim-vsockd" ∷ str "karim-obsd" ∷ []

abbrev pub workloads : List Bytes
workloads = str "sample_app" ∷ str "httpd" ∷ str "kv_store" ∷ str "sh" ∷ []

abbrev pub applets : List Bytes
applets =
    str "sh"
    ∷ str "ls"
    ∷ str "cat"
    ∷ str "cp"
    ∷ str "mv"
    ∷ str "rm"
    ∷ str "mkdir"
    ∷ str "rmdir"
    ∷ str "grep"
    ∷ str "sed"
    ∷ str "awk"
    ∷ str "find"
    ∷ str "ps"
    ∷ str "top"
    ∷ str "ip"
    ∷ str "ping"
    ∷ str "vi"
    ∷ str "tar"
    ∷ str "gzip"
    ∷ str "head"
    ∷ str "tail"
    ∷ str "wc"
    ∷ str "chmod"
    ∷ str "chown"
    ∷ []

abbrev pub passwd_content : Bytes
passwd_content =
    str "root:x:0:0:root:/root:/bin/sh"
    ++ (10
        ∷ (str "nginx:x:101:101:nginx:/var/cache/nginx:/sbin/nologin"
            ++ (10 ∷ (str "nobody:x:65534:65534:nobody:/:/sbin/nologin" ++ (10 ∷ [])))))

abbrev pub group_content : Bytes
group_content =
    str "root:x:0:" ++ (10 ∷ (str "nginx:x:101:" ++ (10 ∷ (str "nobody:x:65534:" ++ (10 ∷ [])))))
