-- ===== src/Resources/Shared/Calls.antt =====
-- The calls of one operator while others work, where the secret is there.
use vm_file_restore_operator.Base.{
  ◌≡◌, refl, sym, subst, String, List, [], ◌∷◌, All, Option, none, some,
}
use vm_file_restore_operator.Errors.{Result, ok, err}
use vm_file_restore_operator.Types.{Bytes, Secret}
use vm_file_restore_operator.Monad.{Action, pure}
use vm_file_restore_operator.Monad.Rules.{Keeps, ends_rules, Ends, Ends-on_answer}
use vm_file_restore_operator.Controller.Access.{ssh_auth_private_key}
use vm_file_restore_operator.Resources.{ResourceApi, ConfigMap}
use vm_file_restore_operator.Resources.Server.{IsKeyCodec}
use vm_file_restore_operator.Resources.Ensure.{
  resource_key, with_tars, create_config_map, publish_key_of, new_config_map, with_archives,
}
use vm_file_restore_operator.Resources.Ensure.Pairing.{
  Both, Opens, Paired, new-Paired, with_archives-Paired,
}
use vm_file_restore_operator.Resources.Shared.{
  Objects, Allowed, Call, ReadsConfigMap, Writes, IsSharedServer,
}
use vm_file_restore_operator.Resources.Shared.Steps.{
  Agree, Held, IsStable, Held-IsStable, nothing_done, published,
}

module _ (api : ResourceApi) (namespace : String) (objects : api.World → Objects)
    (own : api.World → List (Objects × Objects))
    (server : IsSharedServer api (resource_key namespace) objects own)
    (codec : IsKeyCodec api) where
  open api use {World}

  -- All steps that the operator has taken are allowed.
  abbrev pub AllAllowed : World → Type 0
  AllAllowed w = All (λ (step : Objects × Objects). Allowed api step.0 step.1) (own w)

  abbrev pub Holds : (Objects → Type 0) → World → Type 0
  Holds P w = P (objects w) × AllAllowed w

  abbrev pub Good : {A : Type 0} → A → World → Type 0
  Good a = Holds (Agree api)

  pub called :
      {A : Type 0} (m : Action World A) (P : Objects → Type 0)
      (Step : A → Objects → Objects → Type 0) (Q : A → Objects → Type 0)
      → IsStable api P
      → ((a : A) → IsStable api (Q a))
      → ((w : World) → Call api (resource_key namespace) objects own (Step (m w).0) w (m w).1)
      → ((a : A) (o o' : Objects) → Step a o o' → P o → Q a o' × Allowed api o o')
      → Ends (Holds P) (λ a. Holds (Q a)) m
  called m P Step Q stable stable' call works = record {
    at = λ w h.
        let c = call w in
        let (q, a) =
          works (m w).0 c.before c.after c.step (stable (objects w) c.before c.meanwhile h.0) in
        (
          stable' (m w).0 c.after (objects (m w).1) c.since q,
          subst (All (λ (step : Objects × Objects). Allowed api step.0 step.1)) (sym c.logged)
              (a, h.1),
        );
  }

  pub ends :
      {A : Type 0} (P : Objects → Type 0) (a : A)
      → ((o : Objects) → P o → Agree api o)
      → Ends (Holds P) Good (pure a)
  unfolding pure
  ends P a k = record { at = λ w h. (k (objects w) h.0, h.1) }

  -- With the secret `s`.
  module _ (s : Secret) where
    abbrev pub In : World → Type 0
    In = Holds (Held api s)

    pub ends-Held : {A : Type 0} (a : A) → Ends In Good (pure a)
    ends-Held a = ends (Held api s) a (λ o h. h.agree)

    created :
        (public : String)
        → Opens api s public
        → (l r : Bytes) → Keeps In (api.create_config_map (new_config_map namespace public l r))
    created public opens l r =
        called _ (Held api s) (λ _. Writes api (resource_key namespace) objects own _)
          (λ _. Held api s) (Held-IsStable api s) (λ _. Held-IsStable api s)
          (λ w. server.create_config_map (new_config_map namespace public l r) w refl)
          (λ _ o o' step h.
            published api s _ o o' (new-Paired api l r s namespace public opens) h step)

    pub create_config_map-Good :
        (public : String)
        → Opens api s public
        → Ends In Good (create_config_map api namespace public)
    unfolding create_config_map with_tars
    create_config_map-Good public opens = search (ends_rules, ends-Held, created) depth 12

    pub publish_key_of-Good :
        (pem : Option Bytes)
        → s.values ssh_auth_private_key ≡ pem
        → Ends In Good (publish_key_of api namespace pem)
    unfolding publish_key_of
    publish_key_of-Good none e = ends-Held _
    publish_key_of-Good (some []) e = ends-Held _
    publish_key_of-Good (some (b ∷ bs)) e =
        Ends-on_answer _ _ _ (λ x _. ends-Held _)
          λ signer parsed. create_config_map-Good _ (record {
            pem = b ∷ bs;
            signer = signer;
            stored = e;
            parsed = parsed;
            published = refl;
          })

    pub updated :
        (l r : Bytes) (cm : ConfigMap)
        → Paired api s cm
        → cm.key ≡ resource_key namespace
        → Keeps In (api.update_config_map (with_archives l r cm))
    unfolding with_archives
    updated l r cm p named =
        called _ (Held api s) (λ _. Writes api (resource_key namespace) objects own _)
          (λ _. Held api s) (Held-IsStable api s) (λ _. Held-IsStable api s)
          (λ w. server.update_config_map (with_archives l r cm) w named)
          (λ _ o o' step h. published api s _ o o' (with_archives-Paired api l r s cm p) h step)

    -- What a read of the config map shows.
    unfoldable pub Seen : Result ConfigMap → Objects → Type 0
    Seen (err _) o = Held api s o
    Seen (ok cm) o = Held api s o × Paired api s cm × (cm.key ≡ resource_key namespace)

    Seen-IsStable : (a : Result ConfigMap) → IsStable api (Seen a)
    unfolding Seen
    Seen-IsStable (err e) o o' a h = Held-IsStable api s o o' a h
    Seen-IsStable (ok cm) o o' a h = (Held-IsStable api s o o' a h.0, h.1, h.2)

    seen :
        (a : Result ConfigMap) (o o' : Objects)
        → ReadsConfigMap api (resource_key namespace) objects own a o o'
        → Held api s o
        → Seen a o' × Allowed api o o'
    unfolding Seen
    seen (err e) o o' step h = (rw (step.unchanged) h, nothing_done api o o' step.unchanged)
    seen (ok cm) o o' step h = (
      (
        rw (step.unchanged) h,
        subst (Both api (some s)) step.seen (subst (λ x. Both api x o.config_map) h.held h.agree),
        step.named cm refl,
      ),
      nothing_done api o o' step.unchanged,
    )

    pub read : Ends In (λ a. Holds (Seen a)) (api.get_config_map (resource_key namespace))
    read =
        called _ (Held api s) (ReadsConfigMap api (resource_key namespace) objects own) Seen
          (Held-IsStable api s) Seen-IsStable server.get_config_map seen
