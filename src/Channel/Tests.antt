-- ===== src/Channel/Tests.antt =====
-- Channel.h at a concrete channel.
