-- ===== src/Tests/Configuration.antt =====
-- Tests of the configuration lifecycle: a version is drafted, validated and published.
use hotelops_ai.Prelude.{ℕ, ◌+◌, ◌*◌, ◌≤◌, ◌≡◌, refl, Option, none, some, [], ◌∷◌, ok}
use hotelops_ai.Prelude.Sets.{member, IsDistinct}
use hotelops_ai.Access.{Actor, require_venue_access}
use hotelops_ai.Configuration.Machine.{
  draft, validating, validated, published, assert_can_edit, assert_can_validate, assert_can_publish,
  is_mutable,
}
use hotelops_ai.Configuration.Service.{
  VersionRow, Store, create_draft, start_validation_of, run_validation, publish, publish_new,
  promote, write_draft, get_or_create, get_latest_version, get_for_actor,
  get_latest_published_version, update_status, point_to,
}
use hotelops_ai.Configuration.Versions.{ids, row_of, IsChecked, IsMove}
use hotelops_ai.Configuration.Publication.{
  Reach, start, later, creates, starts, validates, publishes, version-IsMove, published-IsChecked,
}
use hotelops_ai.Configuration.Pointer.{publish_new-newest}

abbrev actor : Actor
actor = record { actor_id = 1; tenant_id = 2; venue_scope = [] }

abbrev revision : ℕ → ℕ → ℕ
revision number content = number * 100 + content

abbrev drafted : VersionRow
drafted = record {
  version_id = 7;
  configuration_id = 5;
  venue_id = 3;
  tenant_id = 2;
  version = 1;
  status = draft;
  content = 0;
  validation_result = none;
  validated_by = none;
  published_by = none;
  published_at = none;
  replaced_version_id = none;
}

abbrev checked : VersionRow
checked = record drafted {
  status = validated;
  validation_result = some (record { content_revision = 100; errors = [] });
  validated_by = some 1;
}

abbrev live : VersionRow
live = record checked { status = published; published_by = some 1; published_at = some 50 }

abbrev store_of : Option ℕ → VersionRow → Store
store_of current row = record {
  configurations =
      record {
        configuration_id = 5;
        venue_id = 3;
        tenant_id = 2;
        current_published_version_id = current;
      }
      ∷ [];
  versions = row ∷ [];
}

drafted-Reach : Reach revision (store_of none drafted)
unfolding create_draft require_venue_access get_or_create get_latest_version member
drafted-Reach = later start (creates actor 3 5 7 refl refl)

started-Reach : Reach revision (store_of none (record drafted { status = validating }))
unfolding start_validation_of get_for_actor assert_can_validate update_status
started-Reach = later drafted-Reach (starts actor 7 refl)

checked-Reach : Reach revision (store_of none checked)
unfolding run_validation get_for_actor update_status
checked-Reach = later started-Reach (validates actor 7 1 [] refl)

goes_live : publish revision actor 7 1 50 (store_of none checked) ≡ ok (store_of (some 7) live)
unfolding publish get_for_actor publish_new promote assert_can_publish get_latest_published_version
    update_status
goes_live = refl

checked-IsDistinct : IsDistinct (ids (store_of none checked).versions)
unfolding member
checked-IsDistinct = (refl, tt)

version-IsMove_example :
    (q : VersionRow) × (row_of 7 (store_of (some 7) live).versions ≡ some q)
    × IsMove revision checked q
version-IsMove_example =
    version-IsMove revision 7 checked-IsDistinct (publishes actor 7 1 50 goes_live) refl

published-IsChecked_example : IsChecked revision live
published-IsChecked_example =
    published-IsChecked revision 7 (later checked-Reach (publishes actor 7 1 50 goes_live)) refl
      refl

-- A second version is published after the first.
abbrev second : VersionRow
second = record checked {
  version_id = 8;
  version = 2;
  validation_result = some (record { content_revision = 200; errors = [] });
}

abbrev two : Store
two = record (store_of (some 7) live) { versions = live ∷ second ∷ [] }

second-published :
    publish_new revision actor 8 1 60 second two
    ≡ ok (record {
      configurations = (store_of (some 8) live).configurations;
      versions =
          live
          ∷ record second {
            status = published;
            published_by = some 1;
            published_at = some 60;
            replaced_version_id = some 7;
          }
          ∷ [];
    })
unfolding publish_new promote assert_can_publish get_latest_published_version update_status
second-published = refl

publish_new-newest_example :
    (1 ≤ 2)
    × ((store_of (some 8) live).configurations
        ≡ point_to actor 5 8 (store_of (some 7) live).configurations)
publish_new-newest_example =
    publish_new-newest revision actor 8 1 60 second two 7 second-published refl (refl, (refl, tt))
      refl refl

-- A call of `update_draft` that read the draft before the other calls changes the published version.
overtaken :
    write_draft (λ content. 9) drafted (store_of (some 7) live)
    ≡ ok (store_of (some 7) (record live { content = 9 }))
unfolding write_draft assert_can_edit is_mutable
overtaken = refl
