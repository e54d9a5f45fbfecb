-- ===== src/Query.antt =====
-- include/ozo/query_builder.h and include/ozo/query_conf.h: the texts and parameters of queries.
pub mod Builder
pub mod Conf
pub mod Send
