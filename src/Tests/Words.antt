-- ===== src/Tests/Words.antt =====
-- Amounts in words.
use biz_saathi.Prelude.{◌≡◌, refl, arith}
use biz_saathi.Text.{codes}
use biz_saathi.Words.{
  amount_to_words, convert_amount, amount_blocks, convert_block, below_hundred, below_twenty, trim,
}
use biz_saathi.Words.Reading.{read_amount}
use biz_saathi.Words.RoundTrip.{read_amount_to_words}

hundred_and_paise :
    amount_to_words 12_345 ≡ codes "One Hundred Twenty Three Rupees and Forty Five Paise Only"
unfolding amount_to_words convert_amount amount_blocks convert_block below_hundred below_twenty trim
hundred_and_paise = refl

-- The text of an amount below one rupee begins with a space, and names no number of rupees.
half_rupee : amount_to_words 50 ≡ codes " Rupees and Fifty Paise Only"
unfolding amount_to_words convert_amount amount_blocks convert_block below_hundred below_twenty trim
half_rupee = refl

read_amount_to_words_example : read_amount (amount_to_words 123_456_789_05) ≡ 123_456_789_05
read_amount_to_words_example = read_amount_to_words 123_456_789_05 (ground arith)
