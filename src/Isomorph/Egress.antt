-- ===== src/Isomorph/Egress.antt =====
-- `main` of threlium/states/egress_isomorph.py: the answer that is pushed to the bridge, and the
-- record of it in the archive.
use threlium.Prelude.{ℕ, Option, none, some, List, Result, ok, raise, runtime_error, ◌>>=◌, ◌>>◌}
use threlium.Prelude.Text.{Text, codes, strip}
use threlium.Irt.Snapshot.{Snapshot}
use threlium.Route.Wire.{isomorph_route, IsomorphIngressRoute, RouteLib}
use threlium.Route.Resolve.{isomorph, resolve_egress_task_route_ancestor}
use threlium.Isomorph.Mid.{MidLib, snowflake_to_mid, mid_to_snowflake, watermark_reply}

-- `IsomorphBridgePushPayload`, as far as this stage sets it
pub record Push : Type 0 where
  pub ingress_mid : Text
  pub api_surface : Text
  pub finish_reason : Text
  pub model : Text
  pub text : Text

-- What the stage has done: the id of the record that it wrote, if it wrote one, the id under which
-- the answer is found in the archive, and what it pushed.
pub record Egressed : Type 0 where
  pub archived : Option Text
  pub glue_mid : Text
  pub payload : Push

module _ (mids : MidLib) where
  -- `glue_mid` and `glue_sf`; `minted` is what `mint_egress_snowflake` gives.
  unfoldable pub glue : Option Text → ℕ → Result (Text × Option ℕ)
  unfolding snowflake_to_mid mid_to_snowflake
  glue (some glue_mid) minted = ok (glue_mid, mid_to_snowflake mids glue_mid)
  glue none minted = snowflake_to_mid mids minted >>= λ glue_mid. ok (glue_mid, some minted)

  -- `watermarked_text`
  unfoldable pub watermarked : Text → Option ℕ → Text
  unfolding watermark_reply
  watermarked reply_text none = reply_text
  watermarked reply_text (some glue_sf) = watermark_reply reply_text glue_sf

  -- `archive` builds the record for an id and hands it to fdm.
  module _ (routes : RouteLib) (ancestors : Text → Result (List Snapshot))
      (archive : Text → Result (Unit {0})) where
    unfoldable pub archive_first : Option Text → Text → Result (Option Text)
    archive_first (some existing) glue_mid = ok none
    archive_first none glue_mid = archive glue_mid >> ok (some glue_mid)

    -- The part of `main` behind the route.
    unfoldable pub push_reply :
        IsomorphIngressRoute → Text → Text → Option Text → ℕ → Result Egressed
    unfolding glue watermarked archive_first strip
    push_reply route corr system_text existing minted = do
      (glue_mid, glue_sf) ← glue existing minted
      archived ← archive_first existing glue_mid
      ok (record {
        archived = archived;
        glue_mid = glue_mid;
        payload = record {
          ingress_mid = corr;
          api_surface = route.api_surface;
          finish_reason = codes "stop";
          model = route.model;
          text = watermarked (strip system_text) glue_sf;
        };
      })

    -- `existing` is what `find_existing_egress_archive` gives. The route is of the type that is
    -- asked for.
    unfoldable pub egress_isomorph_main : Option Text → Text → Option Text → ℕ → Result Egressed
    unfolding resolve_egress_task_route_ancestor push_reply
    egress_isomorph_main message_id system_text existing minted = do
      (ing, snap) ← resolve_egress_task_route_ancestor routes ancestors message_id isomorph
      elim ing [
        | isomorph_route route ↦ push_reply route snap.ancestor_mid system_text existing minted
        | _ ↦ raise runtime_error
      ]
