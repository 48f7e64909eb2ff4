-- ===== src/Vsock/Server/Answers.antt =====
-- The answer to every command: when it is an error, with which text, and when it carries data.
use a_from_scratch_linux_use.Vsock.Server.Errors.{
  fine, stream_errors, looking, status_errors, thawing, thaw_errors, freezing, freeze_errors,
  watching, payload_errors, system_errors, service_errors, error_of, select,
}
use a_from_scratch_linux_use.Base.{
  refl, ◌||◌, map, true, false, Option, none, some, List, [], ◌∷◌, ◌++◌, if◌then◌else◌, Bytes, str,
  ◌≡◌, arith, one_of, str_eq, Bool,
}
use a_from_scratch_linux_use.Vsock.Protocol.{
  reply, Request, Payload, nothing, text, services, metrics, foreign, Response,
}
use a_from_scratch_linux_use.Vsock.Server.{
  answer, answer_with, Provider, Surroundings, dispatch_services, dispatch_system, dispatch_payload,
  dispatch_command,
}

abbrev carries_data : {F X : Type 0} → Payload F X → Bool
carries_data nothing = false
carries_data (text t) = true
carries_data (services l) = true
carries_data (metrics m) = true
carries_data (foreign x) = true

-- The answer to a request that fails with a text, or that does not fail.
abbrev pub Answers : {F X : Type 0} → Request → Option Bytes → Response F X → Type 0
Answers r none p =
    (p.id ≡ r.id) × (p.success ≡ true) × (p.error ≡ []) × (carries_data p.content ≡ true)
Answers r (some e) p = (p.id ≡ r.id) × (p.success ≡ false) × (p.error ≡ e) × (p.content ≡ nothing)

abbrev status_names : List Bytes
status_names =
    str "get_system_status" ∷ str "system" ∷ str "system_status" ∷ str "status" ∷ str "hardd" ∷ []

foreign_answer :
    (F : Type 0) {X : Type 0} (r : Request) (x : X × Option Bytes)
    → Answers {F = F} r x.1 (answer_with r.id x)
foreign_answer F r (x, none) = (refl, refl, refl, refl)
foreign_answer F r (x, some e) = (refl, refl, refl, refl)

text_answer :
    (F X : Type 0) {S : Type 0} (r : Request) (t : Bytes) (q : S × Option Bytes)
    → Answers {F = F} {X = X} r q.1 (answer r.id (text t) q).1
text_answer F X r t (s, none) = (refl, refl, refl, refl)
text_answer F X r t (s, some e) = (refl, refl, refl, refl)

module _ {F X S : Type 0} (world : Surroundings X) where
  services_answer :
      (provider : Option (Provider F S)) (r : Request) (s : S) (others : S × Response F X)
      (o : Option Bytes)
      → Answers r o others.1
      → Answers r
          (select world provider (service_errors world provider) r s o)
          (dispatch_services world provider r s others).1
  unfolding dispatch_services select one_of
  services_answer none r s others o h = ground arith
  services_answer (some p) r s others o h = ground arith

  -- The names of one row, against one case of the switch.
  row :
      (provider : Option (Provider F S)) (names : List Bytes) (f : Request → S → Option Bytes)
      (table : List (Bytes × (Request → S → Option Bytes))) (r : Request) (s : S) (o : Option Bytes)
      (here others : S × Response F X)
      → Answers r (f r s) here.1
      → Answers r (select world provider table r s o) others.1
      → Answers r
          (select world provider (map (λ n. (n, f)) names ++ table) r s o)
          (if one_of r.command names then here else others).1
  unfolding select one_of
  row provider [] f table r s o here others h g = g
  row provider (n ∷ names) f table r s o here others h g =
      branch (str_eq r.command n) (row provider names f table r s o here others h g)
    where
      branch :
          (b : Bool)
          → Answers r
              (select world provider (map (λ n. (n, f)) names ++ table) r s o)
              (if one_of r.command names then here else others).1
          → Answers r
              (if b then f r s else select world provider (map (λ n. (n, f)) names ++ table) r s o)
              (if b || one_of r.command names then here else others).1
      branch true k = h
      branch false k = k

  system_answer :
      (provider : Option (Provider F S)) (r : Request) (s : S) (others : S × Response F X)
      (o : Option Bytes)
      → Answers r o others.1
      → Answers r
          (select world provider (system_errors world provider) r s o)
          (dispatch_system world provider r s others).1
  unfolding dispatch_system select one_of
  system_answer none r s others o h = ground arith
  system_answer (some p) r s others o h =
      row (some p) (str "get_obsd" ∷ str "obsd" ∷ []) (watching world (some p))
        (freeze_errors world (some p)) r s o (s, answer_with r.id world.obsd_metrics) _
        (foreign_answer F r world.obsd_metrics)
        (row (some p) (str "quiesce" ∷ str "freeze" ∷ []) (freezing world (some p))
          (thaw_errors world (some p)) r s o
          (answer r.id (text (str "guest filesystem buffers synced and state quiesced"))
            (p.quiesce s))
          _
          (text_answer F X r (str "guest filesystem buffers synced and state quiesced")
            (p.quiesce s))
          (row (some p) (str "unquiesce" ∷ str "thaw" ∷ []) (thawing world (some p))
            (status_errors world (some p)) r s o
            (answer r.id (text (str "guest state unquiesced")) (p.unquiesce s)) _
            (text_answer F X r (str "guest state unquiesced") (p.unquiesce s))
            (row (some p) status_names (looking world (some p)) (stream_errors world (some p)) r s o
              (s, answer_with r.id world.system_status) _ (foreign_answer F r world.system_status)
              (row (some p) (str "trace" ∷ str "stream_exec" ∷ str "execsnoop" ∷ [])
                (fine world (some p)) [] r s o (s, reply r.id (text (str "STREAM_START"))) others
                (refl, refl, refl, refl) h))))

  payload_answer :
      (provider : Option (Provider F S)) (r : Request) (s : S)
      → Answers r
          (select world provider
            (payload_errors world provider)
            r
            s
            (some (str "unknown command: " ++ world.quote r.command)))
          (dispatch_payload world provider r s).1
  unfolding dispatch_payload select one_of
  payload_answer none r s = ground arith
  payload_answer (some p) r s = ground arith

  -- The response to every request has its id. It is an error without data, with the text that the
  -- table of commands gives, for an unknown command, without a provider where the command needs
  -- one, where a service or payload that it needs is empty, and where the provider, the obsd daemon
  -- or the system status fails, then with their text; in all other cases it is a success, with data
  -- and without an error text.
  pub dispatch_command-Answers :
      (provider : Option (Provider F S)) (r : Request) (s : S)
      → Answers r (error_of world provider r s) (dispatch_command world provider r s).1
  unfolding dispatch_command error_of
  dispatch_command-Answers provider r s =
      services_answer provider r s _ _
        (system_answer provider r s _ _ (payload_answer provider r s))
