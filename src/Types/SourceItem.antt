-- ===== src/Types/SourceItem.antt =====
-- crates/types/src/source_item.rs: the matched item that the workers rank and print.
use vim_clap.Common.{some, ℕ, ◌+◌, Option, none, List, map, [], Bool}
use vim_clap.Text.{Text}
use vim_clap.Types.Rank.{Rank, rank_gt, Rank_default}

-- `item` is the `Arc<dyn ClapItem>`: a type of items.
pub record MatchedItem (I : Type 0) : Type 0 where
  pub item : I
  pub rank : Rank
  pub indices : List ℕ
  pub display_text : Option Text
  pub output_text : Option Text

module _ {I : Type 0} where
  -- `MatchedItem::new`
  unfoldable pub new_item : I → Rank → List ℕ → MatchedItem I
  new_item i r is = record {
    item = i;
    rank = r;
    indices = is;
    display_text = none;
    output_text = none;
  }

  -- `From<Arc<dyn ClapItem>>`
  unfoldable pub from_item : I → MatchedItem I
  from_item i = record {
    item = i;
    rank = Rank_default;
    indices = [];
    display_text = none;
    output_text = none;
  }

  -- `a > b`: only the ranks are compared.
  abbrev pub item_gt : MatchedItem I → MatchedItem I → Bool
  item_gt a b = rank_gt a.rank b.rank

  unfoldable pub shifted_indices : MatchedItem I → ℕ → List ℕ
  shifted_indices m offset = map (λ x. x + offset) m.indices

  -- `display_text` and `output_text` of a matched item, from the `output_text` of its item.
  unfoldable pub display_text_of : (I → Text) → MatchedItem I → Text
  display_text_of output_text m = elim (m.display_text) [ some t ↦ t | none ↦ output_text m.item ]

  unfoldable pub output_text_of : (I → Text) → MatchedItem I → Text
  output_text_of output_text m = elim (m.output_text) [ some t ↦ t | none ↦ output_text m.item ]
